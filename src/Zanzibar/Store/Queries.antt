-- ===== src/Zanzibar/Store/Queries.antt =====
-- Read and ReadUsersets of MemoryStore against the set of tuples that it holds
-- (zanzibar/store/memory.go).
use atol_sdk_go.Prelude.{
  true, ◌≡◌, ◌≢◌, ◌↔◌, ◌⊎◌, inl, inr, ◌&&◌, List, [], Str, ◌!=◌, Lacks, lookup, lookup-insert,
  Member, filter, Member-append, Member-filter, Option-cases, Bool-cases, arith,
}
use atol_sdk_go.Zanzibar.Model.Types.{Tuple, TupleFilter, matches_filter}
use atol_sdk_go.Zanzibar.Model.Keys.{object_relation_key, IsClean, object_relation_key_injective}
use atol_sdk_go.Zanzibar.Store.Memory.{
  MemoryStore, bucket_key, values, filter_tuples, scan_materialized, read_indexed, read,
  is_userset_of, read_usersets, write_materialized,
}
use atol_sdk_go.Zanzibar.Store.Index.{Holds, IsFiled, missing-not_Holds}
use atol_sdk_go.Zanzibar.Store.Reads.{
  Materialized, IsValid, bucket_iff, scan_iff, materialized_iff, bucket_of_filter,
}

-- The path through the index.
fast_path :
    (f : TupleFilter) (s : MemoryStore) (t : Tuple)
    → IsFiled s.by_object_relation
    → f.object_type ≢ []
    → f.object_id ≢ []
    → f.relation ≢ []
    → Member t (read_indexed f s) ↔ (Holds s t × (matches_filter t f ≡ true))
unfolding read_indexed filter_tuples
fast_path f s t h a b c =
    let k = object_relation_key f.object_type f.object_id f.relation in
    elim (Option-cases (lookup k s.by_object_relation)) [
      | inl miss ↦ ground (arith, bucket_of_filter t f, missing-not_Holds t s)
      | inr (tuples, found) ↦ ground (
        arith,
        Member-filter t (λ u. matches_filter u f) (values tuples),
        bucket_iff s k tuples t h found,
        bucket_of_filter t f,
      )
    ]

-- Both paths of Read deliver the same tuples of the index.
pub read_indexed_iff :
    (f : TupleFilter) (s : MemoryStore) (t : Tuple)
    → IsFiled s.by_object_relation
    → Member t (read_indexed f s) ↔ (Holds s t × (matches_filter t f ≡ true))
read_indexed_iff f s t h =
    elim (Bool-cases (f.object_type != [] && (f.object_id != [] && f.relation != []))) [
      | inl named ↦ fast_path f s t h (ground arith) (ground arith) (ground arith)
      | inr open_ended ↦
          unfold read_indexed in rw open_ended (scan_iff (λ u. matches_filter u f) s t h)
    ]

-- On a valid store Read delivers exactly the tuples that match the filter and are held by the
-- index or by a materializer, on the path through the index as on the scan of all buckets.
pub read_iff :
    (f : TupleFilter) (s : MemoryStore) (t : Tuple)
    → IsValid s
    → Member t (read f s) ↔ ((Holds s t ⊎ Materialized s t) × (matches_filter t f ≡ true))
unfolding read
read_iff f s t v = ground (
  arith,
  Member-append t (read_indexed f s) (scan_materialized (λ u. matches_filter u f) s.materialized),
  read_indexed_iff f s t v.filed,
  materialized_iff (λ u. matches_filter u f) s t v.materializers,
)

-- Every held tuple has clean fields.
abbrev pub AllClean : MemoryStore → Type 0
AllClean s = (t : Tuple) → Holds s t → IsClean t

userset_bucket :
    (s : MemoryStore) (t : Tuple) (object_type object_id relation : Str)
    → Holds s t
    → AllClean s
    → Lacks b':' object_type
    → Lacks b'#' object_id
    → bucket_key t ≡ object_relation_key object_type object_id relation
    → (t.object_type ≡ object_type) × (t.object_id ≡ object_id) × (t.relation ≡ relation)
userset_bucket s t a b c held clean ha hb e =
    let ct = clean t held in
    object_relation_key_injective t.object_type t.object_id t.relation a b c ct.object_type
      ct.object_id ha hb e

-- On a valid store whose tuples are clean, ReadUsersets at a clean type and id delivers exactly the
-- held and materialized tuples of that object and relation whose user is a userset.
pub read_usersets_iff :
    (object_type object_id relation : Str) (s : MemoryStore) (t : Tuple)
    → IsValid s
    → AllClean s
    → Lacks b':' object_type
    → Lacks b'#' object_id
    → Member t (read_usersets object_type object_id relation s)
      ↔ ((Holds s t ⊎ Materialized s t) × (is_userset_of object_type object_id relation t ≡ true))
unfolding read_usersets is_userset_of
read_usersets_iff a b c s t v clean ha hb =
    let k = object_relation_key a b c in
    elim (Option-cases (lookup k s.by_object_relation)) [
      | inl miss ↦
          ground (
            arith,
            materialized_iff (is_userset_of a b c) s t v.materializers,
            missing-not_Holds t s,
          )
      | inr (tuples, found) ↦ ground (
        arith,
        Member-append t (filter (λ u. u.user_relation != []) (values tuples))
            (scan_materialized (is_userset_of a b c) s.materialized),
        Member-filter t (λ u. u.user_relation != []) (values tuples),
        bucket_iff s k tuples t v.filed found,
        userset_bucket s t a b c,
        clean,
        ha,
        hb,
        materialized_iff (is_userset_of a b c) s t v.materializers,
      )
    ]

-- WriteMaterialized replaces what its materializer has and leaves the index alone.
pub Materialized-write_materialized :
    (name : Str) (tuples : List Tuple) (s : MemoryStore) (t : Tuple)
    → Member t tuples
    → Materialized (write_materialized name tuples s) t
unfolding write_materialized
Materialized-write_materialized name tuples s t m =
    (name, tuples, ground (arith, lookup-insert name name tuples s.materialized), m)
