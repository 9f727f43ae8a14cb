-- ===== src/Zanzibar/Engine/Tuples.antt =====
-- zanzibar/zanzibar.go and zanzibar/relationships.go: the tuple operations of the engine over a
-- MemoryStore.
use atol_sdk_go.Prelude.{
  ℕ, leb, ltb, Bool, true, false, not, ◌&&◌, ◌||◌, List, [], ◌∷◌, Option, none, some, Str, ◌==◌,
  ◌!=◌, Result, ok, err, if◌then◌else◌,
}
use atol_sdk_go.Zanzibar.Model.Types.{Tuple, TupleFilter, matches_filter}
use atol_sdk_go.Zanzibar.Model.Keys.{parse_user_key, parse_object_key}
use atol_sdk_go.Zanzibar.Model.Compile.{YamlModel}
use atol_sdk_go.Zanzibar.Store.Memory.{
  MemoryStore, StoreError, last_holder, precommit_failed, write, delete, delete_if_above, write_tx,
  read, scan, count_direct,
}
use atol_sdk_go.Zanzibar.Store.Replace.{replacement_diff, replace_tx}
use atol_sdk_go.Zanzibar.Check.Checker.{Context, Answer, check}
use atol_sdk_go.Zanzibar.Check.OverMemory.{memory_reader}
use atol_sdk_go.Zanzibar.Check.ContextStore.{check_with_context}
use atol_sdk_go.Zanzibar.Engine.State.{
  TenantModel, ModelStore, on_tuple_write, on_tuple_delete, EngineError, store_failed,
  filter_too_wide, outside_filter, serving_unavailable, no_model_loaded, Op, ◌>>=◌, ◌>>◌, notify,
}
use atol_sdk_go.Zanzibar.Engine.Cache.{model_for_operation}
use atol_sdk_go.Zanzibar.Engine.Steps.{
  Recorder, request_tuple, min_holders, validate_write, validate_writes, change_store,
  notify_unless, is_empty, notify_writes, notify_deletes, record_write, record_delete,
  record_writes, record_deletes,
}

-- containsDirect
unfoldable pub contains_direct : List Tuple → Tuple → Bool
contains_direct [] want = false
contains_direct (t ∷ ts) want =
    let rest = contains_direct ts want in
    if t.user_relation == []
      && (t.object_type == want.object_type
          && (t.object_id == want.object_id
              && (t.relation == want.relation
                  && (t.user_type == want.user_type && t.user_id == want.user_id))))
    then true
    else rest

-- directHolders
unfoldable pub direct_holders : Str → Str → Str → MemoryStore → ℕ
direct_holders object_type object_id relation s = count_direct (
    read
      (record {
        object_type = object_type;
        object_id = object_id;
        relation = relation;
        user_type = [];
        user_id = [];
        user_relation = [];
      })
      s)

-- WriteRawTuple and DeleteRawTuple.
unfoldable pub write_raw_tuple : Option Recorder → Str → Str → Str → Op (Unit {0})
write_raw_tuple n user relation object e =
    let t = request_tuple user relation object in
    (do
      recorded ← record_write n t
      change_store (write t)
      notify_unless recorded (notify (on_tuple_write t)))
      e

unfoldable pub delete_raw_tuple : Option Recorder → Str → Str → Str → Op (Unit {0})
delete_raw_tuple n user relation object e =
    let t = request_tuple user relation object in
    (do
      recorded ← record_delete n t
      change_store (delete t)
      notify_unless recorded (notify (on_tuple_delete t)))
      e

-- MemoryStore.DeleteIfAbove as an operation of the engine.
unfoldable pub delete_above : Tuple → ℕ → Op (Unit {0})
delete_above t min e = elim (delete_if_above t min e.store).0 [
  | some x ↦ (err (store_failed x), record e { store = (delete_if_above t min e.store).1 })
  | none ↦ (ok tt, record e { store = (delete_if_above t min e.store).1 })
]

-- The part of ReplaceRelationships that checks one replacement.
unfoldable pub check_replacements : Option TenantModel → TupleFilter → List Tuple → Op (Unit {0})
check_replacements tm f [] e = (ok tt, e)
check_replacements tm f (t ∷ ts) e =
    if matches_filter t f
    then (do validate_write tm t; check_replacements tm f ts) e
    else (err (outside_filter t), e)

-- The precommit of ReplaceRelationships: all writes, then all deletes.
unfoldable pub record_all : Option Recorder → List Tuple → List Tuple → Op Bool
record_all n writes deletes e =
    (do recorded ← record_writes n writes false; record_deletes n deletes recorded) e

-- The error of the precommit, as the store sees it.
abbrev refusal : Result EngineError Bool → Option StoreError
refusal (err x) = some (precommit_failed 0)
refusal (ok recorded) = none

-- ReplaceTx, with what the precommit records: whether it recorded, the writes and the deletes.
unfoldable pub replace_recorded :
    Option Recorder → TupleFilter → List Tuple → Op (Bool × List Tuple × List Tuple)
replace_recorded n f replacements e =
    let diff =
      replacement_diff (scan (λ t. matches_filter t f) e.store.by_object_relation) replacements in
    let recording = record_all n diff.0 diff.1 e in
    let committed =
      replace_tx f replacements (some (λ writes deletes. refusal (record_all n writes deletes e).0))
        e.store in
    elim recording.0 [
      | err x ↦ (err x, record recording.1 { store = committed.1 })
      | ok recorded ↦ (ok (recorded, diff.0, diff.1), record recording.1 { store = committed.1 })
    ]

module _ (unmarshal : Str → Option YamlModel) (ms : Option ModelStore) (context : Str)
    (n : Option Recorder) where
  unfoldable pub write_tuple : Str → Str → Str → Op (Unit {0})
  write_tuple user relation object e =
      let t = request_tuple user relation object in
      (do
        tm ← model_for_operation unmarshal ms context
        validate_write tm t
        recorded ← record_write n t
        change_store (write t)
        notify_unless recorded (notify (on_tuple_write t)))
        e

  unfoldable pub delete_tuple : Str → Str → Str → Op (Unit {0})
  delete_tuple user relation object e =
      let t = request_tuple user relation object in
      (do
        tm ← model_for_operation unmarshal ms context
        recorded ← record_delete n t
        if leb 1 (min_holders tm t.object_type relation) && t.user_relation == []
            then delete_above t (min_holders tm t.object_type relation)
            else change_store (delete t)
        notify_unless recorded (notify (on_tuple_delete t)))
        e

  unfoldable pub can_delete : Str → Str → Str → Op (Unit {0})
  can_delete user relation object e =
      let t = request_tuple user relation object in
      (do
        tm ← model_for_operation unmarshal ms context
        λ e'.
            if ltb (min_holders tm t.object_type relation) 1 || t.user_relation != []
            then (ok tt, e')
            else if not (
                contains_direct
                  (read
                    (record {
                      object_type = t.object_type;
                      object_id = t.object_id;
                      relation = relation;
                      user_type = t.user_type;
                      user_id = t.user_id;
                      user_relation = [];
                    })
                    e'.store)
                  t)
            then (ok tt, e')
            else if leb (direct_holders t.object_type t.object_id relation e'.store)
                (min_holders tm t.object_type relation)
            then (err (store_failed last_holder), e')
            else (ok tt, e'))
        e

  unfoldable pub write_relationships : List Tuple → List Tuple → Op (Unit {0})
  write_relationships writes deletes e =
      if is_empty writes && is_empty deletes
      then (ok tt, e)
      else (do
        tm ← model_for_operation unmarshal ms context
        validate_writes tm writes
        recorded ← record_writes n writes false
        recorded' ← record_deletes n deletes recorded
        change_store (write_tx writes deletes)
        notify_unless recorded' (notify_writes writes >> notify_deletes deletes))
          e

  unfoldable pub replace_relationships : TupleFilter → List Tuple → Op (Unit {0})
  replace_relationships f replacements e =
      if f.object_type == [] || (f.object_id == [] || f.relation == [])
      then (err filter_too_wide, e)
      else (do
        tm ← model_for_operation unmarshal ms context
        check_replacements tm f replacements
        done ← replace_recorded n f replacements
        notify_unless done.0 (notify_writes done.1 >> notify_deletes done.2))
          e

  -- Engine.Check, behind the serving gate's answer.
  unfoldable pub engine_check : Option (Str → Bool) → Context → ℕ → Str → Str → Str → Op Answer
  engine_check gate ctx fuel user relation object e =
      if elim gate [ none ↦ true | some serves ↦ serves context ]
      then (do
        tm ← model_for_operation unmarshal ms context
        λ e'. elim tm [
          | none ↦ (err no_model_loaded, e')
          | some t ↦ (
            ok (
                check t.model (memory_reader e'.store) ctx fuel (parse_user_key user).0
                  (parse_user_key user).1 relation (parse_object_key object).0
                  (parse_object_key object).1),
            e',
          )
        ])
          e
      else (err serving_unavailable, e)

  -- CheckWithContextTuples
  unfoldable pub engine_check_with_context_tuples :
      Option (Str → Bool) → Context → List Tuple → ℕ → Str → Str → Str → Op Answer
  engine_check_with_context_tuples gate ctx context_tuples fuel user relation object e =
      if elim gate [ none ↦ true | some serves ↦ serves context ]
      then if is_empty context_tuples
        then engine_check gate ctx fuel user relation object e
        else (do
          tm ← model_for_operation unmarshal ms context
          λ e'. elim tm [
            | none ↦ (err no_model_loaded, e')
            | some t ↦ (
              ok (
                  check_with_context t.model (memory_reader e'.store) ctx context_tuples fuel
                    (parse_user_key user).0 (parse_user_key user).1 relation
                    (parse_object_key object).0 (parse_object_key object).1),
              e',
            )
          ])
            e
      else (err serving_unavailable, e)
