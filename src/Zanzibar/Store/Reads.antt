-- ===== src/Zanzibar/Store/Reads.antt =====
-- What Read, ReadUsersets and the materialized tuples deliver (zanzibar/store/memory.go).
use atol_sdk_go.Prelude.{
  Bool, true, ◌≡◌, refl, ap, ◌≢◌, ◌↔◌, inl, inr, List, [], ◌∷◌, some, Str, Map, lookup, Distinct,
  Member_of_lookup, lookup_of_Member, Member, filter, Member-append, Member-filter, Option-cases,
  arith,
}
use atol_sdk_go.Zanzibar.Model.Types.{Tuple, TupleFilter, matches_filter}
use atol_sdk_go.Zanzibar.Model.Keys.{object_relation_key, tuple_key}
use atol_sdk_go.Zanzibar.Store.Memory.{MemoryStore, bucket_key, values, scan, scan_materialized}
use atol_sdk_go.Zanzibar.Store.Index.{Holds, IsFiled}

-- Some materializer has the tuple among its tuples.
abbrev pub Materialized : MemoryStore → Tuple → Type 0
Materialized s t =
    (name : Str) × (tuples : List Tuple) × (lookup name s.materialized ≡ some tuples)
    × Member t tuples

pub Member-values :
    (t : Tuple) (b : Map Tuple)
    → Distinct b
    → Member t (values b)
    → (j : Str) × (lookup j b ≡ some t)
unfolding lookup
Member-values t [] d m = absurd m
Member-values t ((j, u) ∷ b) d (inl e) = (j, ground arith)
Member-values t ((j, u) ∷ b) d (inr m) =
    let (i, found) = Member-values t b d.1 m in (i, ground arith)

lookup-Member_values :
    (t : Tuple) (j : Str) (b : Map Tuple) → lookup j b ≡ some t → Member t (values b)
unfolding lookup
lookup-Member_values t j [] e = absurd (ground arith)
lookup-Member_values t j ((i, u) ∷ b) e = ground (arith, lookup-Member_values t j b)

-- A tuple is found in a bucket exactly when it is held and the bucket is its own.
pub bucket_iff :
    (s : MemoryStore) (k : Str) (b : Map Tuple) (t : Tuple)
    → IsFiled s.by_object_relation
    → lookup k s.by_object_relation ≡ some b
    → Member t (values b) ↔ (Holds s t × (bucket_key t ≡ k))
bucket_iff s k b t h e = (
  λ m.
      let (j, found) = Member-values t b (h.buckets k b e).0 m in
      let (here, under) = h.filed k j b t e found in (ground arith, here),
  λ (held, here). lookup-Member_values t (tuple_key t) b (ground arith),
)

-- The nested loops deliver exactly the tuples of the buckets that pass the test.
pub scan-values :
    (keep : Tuple → Bool) (m : Map (Map Tuple)) (t : Tuple)
    → Member t (scan keep m)
    → (k : Str) × (b : Map Tuple) × Member (k, b) m × Member t (values b) × (keep t ≡ true)
unfolding scan
scan-values keep [] t m = absurd m
scan-values keep ((i, c) ∷ m) t h =
    elim ((Member-append t (filter keep (values c)) (scan keep m)).0 h) [
      | inl first ↦
          let (held, kept) = (Member-filter t keep (values c)).0 first in
          (i, c, inl refl, held, kept)
      | inr later ↦
          let (k, b, mem, held, kept) = scan-values keep m t later in (k, b, inr mem, held, kept)
    ]

values-scan :
    (keep : Tuple → Bool) (m : Map (Map Tuple)) (t : Tuple) (k : Str) (b : Map Tuple)
    → Member (k, b) m
    → Member t (values b)
    → keep t ≡ true
    → Member t (scan keep m)
unfolding scan
values-scan keep [] t k b mem held kept = absurd mem
values-scan keep ((i, c) ∷ m) t k b (inl e) held kept =
    (Member-append t (filter keep (values c)) (scan keep m)).1
      (inl ((Member-filter t keep (values c)).1 (rw (← ap (λ p. p.1) e) held, kept)))
values-scan keep ((i, c) ∷ m) t k b (inr mem) held kept =
    (Member-append t (filter keep (values c)) (scan keep m)).1
      (inr (values-scan keep m t k b mem held kept))

materialized-values :
    (keep : Tuple → Bool) (m : Map (List Tuple)) (t : Tuple)
    → Member t (scan_materialized keep m)
    → (name : Str) × (ts : List Tuple) × Member (name, ts) m × Member t ts × (keep t ≡ true)
unfolding scan_materialized
materialized-values keep [] t m = absurd m
materialized-values keep ((i, c) ∷ m) t h =
    elim ((Member-append t (filter keep c) (scan_materialized keep m)).0 h) [
      | inl first ↦
          let (held, kept) = (Member-filter t keep c).0 first in (i, c, inl refl, held, kept)
      | inr later ↦
          let (k, b, mem, held, kept) = materialized-values keep m t later in
          (k, b, inr mem, held, kept)
    ]

values-materialized :
    (keep : Tuple → Bool) (m : Map (List Tuple)) (t : Tuple) (k : Str) (ts : List Tuple)
    → Member (k, ts) m
    → Member t ts
    → keep t ≡ true
    → Member t (scan_materialized keep m)
unfolding scan_materialized
values-materialized keep [] t k b mem held kept = absurd mem
values-materialized keep ((i, c) ∷ m) t k b (inl e) held kept =
    (Member-append t (filter keep c) (scan_materialized keep m)).1
      (inl ((Member-filter t keep c).1 (rw (← ap (λ p. p.1) e) held, kept)))
values-materialized keep ((i, c) ∷ m) t k b (inr mem) held kept =
    (Member-append t (filter keep c) (scan_materialized keep m)).1
      (inr (values-materialized keep m t k b mem held kept))

-- The index is well filed and each materializer has one list.
pub record IsValid (s : MemoryStore) : Type 0 where
  pub filed : IsFiled s.by_object_relation
  pub materializers : Distinct s.materialized

pub scan_iff :
    (keep : Tuple → Bool) (s : MemoryStore) (t : Tuple)
    → IsFiled s.by_object_relation
    → Member t (scan keep s.by_object_relation) ↔ (Holds s t × (keep t ≡ true))
scan_iff keep s t h = (
  λ m.
      let (k, b, mem, held, kept) = scan-values keep s.by_object_relation t m in
      let found = lookup_of_Member k b s.by_object_relation h.distinct mem in
      (((bucket_iff s k b t h found).0 held).0, kept),
  λ (held, kept). elim (Option-cases (lookup (bucket_key t) s.by_object_relation)) [
    | inl miss ↦ unfold lookup in absurd (ground arith)
    | inr (b, found) ↦
        values-scan keep s.by_object_relation t (bucket_key t) b
          (Member_of_lookup (bucket_key t) b s.by_object_relation found)
          ((bucket_iff s (bucket_key t) b t h found).1 (held, refl)) kept
  ],
)

pub materialized_iff :
    (keep : Tuple → Bool) (s : MemoryStore) (t : Tuple)
    → Distinct s.materialized
    → Member t (scan_materialized keep s.materialized) ↔ (Materialized s t × (keep t ≡ true))
materialized_iff keep s t d = (
  λ m.
      let (name, ts, mem, held, kept) = materialized-values keep s.materialized t m in
      ((name, ts, lookup_of_Member name ts s.materialized d mem, held), kept),
  λ ((name, ts, found, held), kept).
      values-materialized keep s.materialized t name ts
        (Member_of_lookup name ts s.materialized found) held kept,
)

-- The bucket of a filter that names type, id and relation is that of every tuple it matches.
pub bucket_of_filter :
    (t : Tuple) (f : TupleFilter)
    → matches_filter t f ≡ true
    → f.object_type ≢ []
    → f.object_id ≢ []
    → f.relation ≢ []
    → bucket_key t ≡ object_relation_key f.object_type f.object_id f.relation
unfolding matches_filter
bucket_of_filter t f h a b c = ground arith
