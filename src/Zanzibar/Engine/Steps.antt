-- ===== src/Zanzibar/Engine/Steps.antt =====
-- zanzibar/zanzibar.go and zanzibar/relationships.go: the steps that the tuple operations of the engine
-- share: validation, recording and notification. A PrecommitTupleRecorder is given by which tuples it
-- accepts.
use atol_sdk_go.Prelude.{
  ℕ, Bool, true, false, ◌||◌, List, [], ◌∷◌, Option, none, some, Str, lookup, ok, err,
  if◌then◌else◌,
}
use atol_sdk_go.Zanzibar.Model.Types.{Tuple}
use atol_sdk_go.Zanzibar.Model.Keys.{parse_user_key, parse_object_key}
use atol_sdk_go.Zanzibar.Model.Validate.{validate_tuple}
use atol_sdk_go.Zanzibar.Store.Memory.{MemoryStore}
use atol_sdk_go.Zanzibar.Engine.State.{
  TenantModel, on_tuple_write, on_tuple_delete, record_tuple_write, record_tuple_delete,
  invalid_tuple, record_failed, Op, ◌>>=◌, ◌>>◌, return, fail, notify,
}

-- zanzibar/sync/notifier.go: PrecommitTupleRecorder.
pub record Recorder : Type 0 where
  pub accepts_write : Tuple → Bool
  pub accepts_delete : Tuple → Bool

-- The tuple of a request.
unfoldable pub request_tuple : Str → Str → Str → Tuple
request_tuple user relation object = record {
  object_type = (parse_object_key object).0;
  object_id = (parse_object_key object).1;
  relation = relation;
  user_type = (parse_user_key user).0;
  user_id = (parse_user_key user).1;
  user_relation = (parse_user_key user).2;
}

unfoldable pub min_holders : Option TenantModel → Str → Str → ℕ
min_holders none object_type relation = 0
min_holders (some tm) object_type relation = elim (lookup object_type tm.model.types) [
  | none ↦ 0
  | some type_def ↦ elim (lookup relation type_def.relations) [
    | none ↦ 0
    | some rel_def ↦ rel_def.min_holders
  ]
]

-- `if tm != nil && tm.model != nil { … ValidateTuple … }`
unfoldable pub validate_write : Option TenantModel → Tuple → Op (Unit {0})
validate_write none t e = (ok tt, e)
validate_write (some tm) t e = elim (validate_tuple (some tm.model) t) [
  | err x ↦ (err (invalid_tuple x), e)
  | ok _ ↦ (ok tt, e)
]

unfoldable pub validate_writes : Option TenantModel → List Tuple → Op (Unit {0})
validate_writes tm [] e = (ok tt, e)
validate_writes tm (t ∷ ts) e = (do validate_write tm t; validate_writes tm ts) e

-- Changes of the store that cannot fail.
abbrev pub change_store : (MemoryStore → MemoryStore) → Op (Unit {0})
change_store f e = (ok tt, record e { store = f e.store })

abbrev pub notify_unless : Bool → Op (Unit {0}) → Op (Unit {0})
notify_unless recorded call e = if recorded then (ok tt, e) else call e

abbrev pub is_empty : List Tuple → Bool
is_empty [] = true
is_empty (t ∷ ts) = false

unfoldable pub notify_writes : List Tuple → Op (Unit {0})
notify_writes [] e = (ok tt, e)
notify_writes (t ∷ ts) e = (do notify (on_tuple_write t); notify_writes ts) e

unfoldable pub notify_deletes : List Tuple → Op (Unit {0})
notify_deletes [] e = (ok tt, e)
notify_deletes (t ∷ ts) e = (do notify (on_tuple_delete t); notify_deletes ts) e

unfoldable pub record_write : Option Recorder → Tuple → Op Bool
record_write none t e = (ok false, e)
record_write (some r) t e =
    (do
      notify (record_tuple_write t)
      if r.accepts_write t then return true else fail (record_failed t))
      e

unfoldable pub record_delete : Option Recorder → Tuple → Op Bool
record_delete none t e = (ok false, e)
record_delete (some r) t e =
    (do
      notify (record_tuple_delete t)
      if r.accepts_delete t then return true else fail (record_failed t))
      e

-- The loops that record: `recorded = recorded || used`.
unfoldable pub record_writes : Option Recorder → List Tuple → Bool → Op Bool
record_writes n [] recorded e = (ok recorded, e)
record_writes n (t ∷ ts) recorded e =
    (do used ← record_write n t; record_writes n ts (recorded || used)) e

unfoldable pub record_deletes : Option Recorder → List Tuple → Bool → Op Bool
record_deletes n [] recorded e = (ok recorded, e)
record_deletes n (t ∷ ts) recorded e =
    (do used ← record_delete n t; record_deletes n ts (recorded || used)) e
