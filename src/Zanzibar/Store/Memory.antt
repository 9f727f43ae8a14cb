-- ===== src/Zanzibar/Store/Memory.antt =====
-- zanzibar/store/memory.go: the state of MemoryStore and its operations. The mutex makes each
-- operation one step, so a method is a function from the state to the new state.
use atol_sdk_go.Prelude.{
  ℕ, suc, Bool, true, ◌&&◌, List, [], ◌∷◌, ◌++◌, map, Option, none, some, Str, ◌==◌, ◌!=◌, Map,
  lookup, insert, remove, filter, leb, if◌then◌else◌,
}
use atol_sdk_go.Zanzibar.Model.Types.{Tuple, TupleFilter, matches_filter}
use atol_sdk_go.Zanzibar.Model.Keys.{object_relation_key, tuple_key}

pub record MemoryStore : Type 0 where
  pub by_object_relation : Map (Map Tuple)
  pub by_user : Map (Map Bool)
  pub materialized : Map (List Tuple)

abbrev pub new_memory_store : MemoryStore
new_memory_store = record { by_object_relation = []; by_user = []; materialized = [] }

-- The bucket that a tuple is filed in, and its key in the secondary index.
abbrev pub bucket_key : Tuple → Str
bucket_key t = object_relation_key t.object_type t.object_id t.relation

abbrev pub subject_key : Tuple → Str
subject_key t = t.user_type ++ (b':' ∷ t.user_id)

-- `m[k]` of a map of maps, an empty map where the key is missing.
abbrev pub inner : {V : Type 0} → Str → Map (Map V) → Map V
inner k m = elim (lookup k m) [ none ↦ [] | some b ↦ b ]

-- Deletes `j` from `m[k]`, and `m[k]` itself if that leaves it empty.
abbrev pub prune : {V : Type 0} → Str → Map V → Map (Map V) → Map (Map V)
prune k [] m = remove k m
prune k (e ∷ b) m = insert k (e ∷ b) m

unfoldable pub remove_inner : {V : Type 0} → Str → Str → Map (Map V) → Map (Map V)
remove_inner k j m = elim (lookup k m) [ none ↦ m | some b ↦ prune k (remove j b) m ]

unfoldable pub write_locked : Tuple → MemoryStore → MemoryStore
write_locked t s = record s {
  by_object_relation =
      insert (bucket_key t) (insert (tuple_key t) t (inner (bucket_key t) s.by_object_relation))
        s.by_object_relation;
  by_user =
      insert (subject_key t) (insert (tuple_key t) true (inner (subject_key t) s.by_user))
        s.by_user;
}

unfoldable pub delete_locked : Tuple → MemoryStore → MemoryStore
delete_locked t s = record s {
  by_object_relation = remove_inner (bucket_key t) (tuple_key t) s.by_object_relation;
  by_user = remove_inner (subject_key t) (tuple_key t) s.by_user;
}

-- MemoryStore.Write and MemoryStore.Delete.
abbrev pub write : Tuple → MemoryStore → MemoryStore
write = write_locked

abbrev pub delete : Tuple → MemoryStore → MemoryStore
delete = delete_locked

abbrev pub values : {V : Type 0} → Map V → List V
values = map (λ e. e.1)

-- The loop that counts the tuples with no user relation.
abbrev pub count_direct : List Tuple → ℕ
count_direct [] = 0
count_direct (t ∷ ts) = if t.user_relation == [] then suc (count_direct ts) else count_direct ts

unfoldable pub direct_holders_locked : Str → Str → Str → MemoryStore → ℕ
direct_holders_locked object_type object_id relation s =
    elim (lookup (object_relation_key object_type object_id relation) s.by_object_relation) [
      | none ↦ 0
      | some tuples ↦ count_direct (values tuples)
    ]

pub data StoreError : Type 0 where
  last_holder : StoreError
  read_failed : ℕ → StoreError
  precommit_failed : ℕ → StoreError

-- MemoryStore.DeleteIfAbove: the error, if any, and the new state.
unfoldable pub delete_if_above : Tuple → ℕ → MemoryStore → Option StoreError × MemoryStore
delete_if_above t min s = elim (lookup (bucket_key t) s.by_object_relation) [
  | none ↦ (none, s)
  | some tuples ↦ elim (lookup (tuple_key t) tuples) [
    | none ↦ (none, s)
    | some _ ↦
        if leb (direct_holders_locked t.object_type t.object_id t.relation s) min
        then (some last_holder, s)
        else (none, delete_locked t s)
  ]
]

unfoldable pub write_all : List Tuple → MemoryStore → MemoryStore
write_all [] s = s
write_all (t ∷ ts) s = write_all ts (write_locked t s)

unfoldable pub delete_all : List Tuple → MemoryStore → MemoryStore
delete_all [] s = s
delete_all (t ∷ ts) s = delete_all ts (delete_locked t s)

-- MemoryStore.WriteTx: all writes, then all deletes.
unfoldable pub write_tx : List Tuple → List Tuple → MemoryStore → MemoryStore
write_tx writes deletes s = delete_all deletes (write_all writes s)

-- filterTuples
unfoldable pub filter_tuples : Map Tuple → TupleFilter → List Tuple
filter_tuples tuples f = filter (λ t. matches_filter t f) (values tuples)

-- The nested loops over all buckets, and over all materialized tuples, that keep the tuples that
-- pass the test.
unfoldable pub scan : (Tuple → Bool) → Map (Map Tuple) → List Tuple
scan keep [] = []
scan keep ((_, tuples) ∷ m) = filter keep (values tuples) ++ scan keep m

unfoldable pub scan_materialized : (Tuple → Bool) → Map (List Tuple) → List Tuple
scan_materialized keep [] = []
scan_materialized keep ((_, tuples) ∷ m) = filter keep tuples ++ scan_materialized keep m

-- The result of Read before the materialized tuples are merged in.
unfoldable pub read_indexed : TupleFilter → MemoryStore → List Tuple
read_indexed f s =
    if f.object_type != [] && (f.object_id != [] && f.relation != [])
    then elim (lookup (object_relation_key f.object_type f.object_id f.relation)
        s.by_object_relation) [ none ↦ [] | some tuples ↦ filter_tuples tuples f ]
    else scan (λ t. matches_filter t f) s.by_object_relation

unfoldable pub read : TupleFilter → MemoryStore → List Tuple
read f s = read_indexed f s ++ scan_materialized (λ t. matches_filter t f) s.materialized

-- A materialized tuple of ReadUsersets.
unfoldable pub is_userset_of : Str → Str → Str → Tuple → Bool
is_userset_of object_type object_id relation t =
    t.object_type == object_type
    && (t.object_id == object_id && (t.relation == relation && t.user_relation != []))

unfoldable pub read_usersets : Str → Str → Str → MemoryStore → List Tuple
read_usersets object_type object_id relation s =
    elim (lookup (object_relation_key object_type object_id relation) s.by_object_relation) [
      | none ↦ []
      | some tuples ↦ filter (λ t. t.user_relation != []) (values tuples)
    ]
    ++ scan_materialized (is_userset_of object_type object_id relation) s.materialized

unfoldable pub write_materialized : Str → List Tuple → MemoryStore → MemoryStore
write_materialized name tuples s = record s { materialized = insert name tuples s.materialized }

unfoldable pub clear_materialized : Str → MemoryStore → MemoryStore
clear_materialized name s = record s { materialized = remove name s.materialized }
