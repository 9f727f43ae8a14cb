-- ===== src/Zanzibar/Store/Runs.antt =====
-- Runs of a MemoryStore under the engine's tuple operations, in any order (zanzibar/zanzibar.go,
-- WriteTuple and DeleteTuple, over zanzibar/store/memory.go): the invariant of the index, and the
-- minimum-holder floors.
use atol_sdk_go.Prelude.{
  ℕ, ◌≤◌, ◌≡◌, ◌≢◌, inl, inr, [], some, Str, str_dec, Option-cases, Bool-cases, arith, subst,
}
use atol_sdk_go.Zanzibar.Model.Types.{Tuple}
use atol_sdk_go.Zanzibar.Model.Keys.{object_relation_key, IsClean, tuple_key_injective}
use atol_sdk_go.Zanzibar.Store.Memory.{
  MemoryStore, bucket_key, direct_holders_locked, write_locked, delete_locked, delete_if_above,
}
use atol_sdk_go.Zanzibar.Store.Index.{
  find, same_keys, IsFiled, find-write, find-delete, write-IsFiled, delete-IsFiled, find-filed,
  find-Holds,
}
use atol_sdk_go.Zanzibar.Store.Queries.{AllClean}
use atol_sdk_go.Zanzibar.Store.Floors.{
  delete_if_above_lem, delete_if_above-keeps_floor, holders-delete, holders-delete_absent,
  holders-write,
}

-- What a store keeps: a well filed index of clean tuples.
pub record IsSound (s : MemoryStore) : Type 0 where
  pub filed : IsFiled s.by_object_relation
  pub clean : AllClean s

-- What is found under the keys of a tuple has these keys; under clean keys it is the tuple.
pub find-eq : (t u : Tuple) (s : MemoryStore) → IsSound s → IsClean t → find t s ≡ some u → u ≡ t
find-eq t u s h c e =
    tuple_key_injective u t (h.clean u (find-Holds t u s h.filed e)) c
      (find-filed t u s h.filed e).1

pub write-IsSound :
    (t : Tuple) (s : MemoryStore) → IsClean t → IsSound s → IsSound (write_locked t s)
write-IsSound t s c h = record {
  filed = write-IsFiled t s h.filed;
  clean = λ u held. elim (Bool-cases (same_keys t u)) [
    | inl same ↦ subst IsClean (ground (arith, find-write t u s)) c
    | inr other ↦ h.clean u (ground (arith, find-write t u s))
  ];
}

pub delete-IsSound : (t : Tuple) (s : MemoryStore) → IsSound s → IsSound (delete_locked t s)
delete-IsSound t s h = record {
  filed = delete-IsFiled t s h.filed;
  clean = λ u held. h.clean u (ground (arith, find-delete t u s));
}

pub delete_if_above-IsSound :
    (t : Tuple) (min : ℕ) (s : MemoryStore) → IsSound s → IsSound (delete_if_above t min s).1
delete_if_above-IsSound t min s h = elim (delete_if_above_lem t min s) [
  | inl (_, e) ↦ rw e h
  | inr (inl (_, _, e)) ↦ rw e h
  | inr (inr (_, _, e)) ↦ rw e (delete-IsSound t s h)
]

-- One operation of the engine on a store: a write; a delete of a direct tuple of a relation with a
-- floor, by DeleteIfAbove; a delete of a userset tuple.
pub data Step (floor : Str → ℕ) : MemoryStore → MemoryStore → Type 0 where
  wrote : (t : Tuple) (s : MemoryStore) → IsClean t → Step floor s (write_locked t s)
  guarded :
      (t : Tuple) (s : MemoryStore) → Step floor s (delete_if_above t (floor (bucket_key t)) s).1
  unguarded :
      (t : Tuple) (s : MemoryStore)
      → IsClean t
      → t.user_relation ≢ []
      → Step floor s (delete_locked t s)

-- Any number of operations, in any order.
pub data Run (floor : Str → ℕ) (s : MemoryStore) : MemoryStore → Type 0 where
  stop : Run floor s s
  then_step : {u v : MemoryStore} → Run floor s u → Step floor u v → Run floor s v

Step-IsSound : {floor : Str → ℕ} {s u : MemoryStore} → Step floor s u → IsSound s → IsSound u
Step-IsSound (wrote t s c) h = write-IsSound t s c h
Step-IsSound {floor} (guarded t s) h = delete_if_above-IsSound t (floor (bucket_key t)) s h
Step-IsSound (unguarded t s c n) h = delete-IsSound t s h

-- Every run of writes of clean tuples, guarded deletes and deletes of clean userset tuples keeps the
-- index well filed and its tuples clean.
pub Run-IsSound : {floor : Str → ℕ} {s u : MemoryStore} → Run floor s u → IsSound s → IsSound u
Run-IsSound stop h = h
Run-IsSound (then_step r st) h = Step-IsSound st (Run-IsSound r h)

guarded-keeps_floor :
    (floor : Str → ℕ) (t : Tuple) (a b c : Str) (s : MemoryStore)
    → IsSound s
    → floor (object_relation_key a b c) ≤ direct_holders_locked a b c s
    → floor (object_relation_key a b c)
      ≤ direct_holders_locked a b c (delete_if_above t (floor (bucket_key t)) s).1
guarded-keeps_floor floor t a b c s h enough =
    elim (str_dec (bucket_key t) (object_relation_key a b c)) [
      | yes here ↦
          rw here (
            delete_if_above-keeps_floor t (floor (object_relation_key a b c)) a b c s h.filed
              enough)
      | no elsewhere ↦ elim (Option-cases (find t s)) [
        | inl miss ↦ ground (arith, delete_if_above_lem t (floor (bucket_key t)) s)
        | inr (u, e) ↦ ground (
          arith,
          delete_if_above_lem t (floor (bucket_key t)) s,
          holders-delete t u a b c s h.filed e,
        )
      ]
    ]

Step-keeps_floor :
    {floor : Str → ℕ} {s u : MemoryStore} (a b c : Str)
    → Step floor s u
    → IsSound s
    → floor (object_relation_key a b c) ≤ direct_holders_locked a b c s
    → floor (object_relation_key a b c) ≤ direct_holders_locked a b c u
Step-keeps_floor a b c (wrote t s cl) h enough =
    omega (arith, holders-write t a b c s (λ u. find-eq t u s h cl))
Step-keeps_floor {floor} a b c (guarded t s) h enough = guarded-keeps_floor floor t a b c s h enough
Step-keeps_floor a b c (unguarded t s cl n) h enough = elim (Option-cases (find t s)) [
  | inl miss ↦ rw (holders-delete_absent t a b c s miss) enough
  | inr (u, e) ↦ ground (arith, holders-delete t u a b c s h.filed e, find-eq t u s h cl e, enough)
]

-- However writes of clean tuples, guarded deletes and deletes of clean userset tuples are interleaved
-- from a sound store, an object and relation whose direct holders reach the floor never falls below
-- it.
pub Run-keeps_floor :
    {floor : Str → ℕ} {s u : MemoryStore} (a b c : Str)
    → Run floor s u
    → IsSound s
    → floor (object_relation_key a b c) ≤ direct_holders_locked a b c s
    → floor (object_relation_key a b c) ≤ direct_holders_locked a b c u
Run-keeps_floor a b c stop h enough = enough
Run-keeps_floor a b c (then_step r st) h enough =
    Step-keeps_floor a b c st (Run-IsSound r h) (Run-keeps_floor a b c r h enough)
