-- ===== src/Zanzibar/Page/Distinct.antt =====
-- The index holds no tuple twice (zanzibar/store/memory.go).
use atol_sdk_go.Prelude.{
  Bool, ◌≡◌, refl, inl, inr, List, [], ◌∷◌, ◌++◌, filter, Member, Member-append, Member-filter, Map,
  lookup, Distinct, lookup_of_Member, Member_of_lookup, some, Str, arith, sym, subst, ◌∙◌,
}
use atol_sdk_go.Zanzibar.Model.Types.{Tuple}
use atol_sdk_go.Zanzibar.Store.Memory.{bucket_key, values, scan}
use atol_sdk_go.Zanzibar.Store.Index.{IsFiled}
use atol_sdk_go.Zanzibar.Model.Keys.{tuple_key}
use atol_sdk_go.Zanzibar.Store.Reads.{scan-values, Member-values}
use atol_sdk_go.Zanzibar.Page.Strict.{NoDup, filter-NoDup}

abbrev pub IsKeyed : Str → Map Tuple → Type 0
IsKeyed k b = (j : Str) (t : Tuple) → Member (j, t) b → (bucket_key t ≡ k) × (tuple_key t ≡ j)

pub bucket-NoDup : (k : Str) (b : Map Tuple) → Distinct b → IsKeyed k b → NoDup (values b)
unfolding lookup
bucket-NoDup k [] d keyed = tt
bucket-NoDup k ((j, t) ∷ b) d keyed = (
  λ m.
      let (i, found) = Member-values t b d.1 m in
      let here = (keyed j t (inl refl)).1 in
      let there = (keyed i t (inr (Member_of_lookup i t b found))).1 in
      absurd (ground (arith, d.0, subst (λ x. lookup x b ≡ some t) (sym there ∙ here) found)),
  bucket-NoDup k b d.1 (λ i u mem. keyed i u (inr mem)),
)

append-NoDup :
    (xs ys : List Tuple)
    → NoDup xs
    → NoDup ys
    → ((t : Tuple) → Member t xs → ¬ Member t ys)
    → NoDup (xs ++ ys)
append-NoDup [] ys d e apart = e
append-NoDup (x ∷ xs) ys d e apart = (
  λ m. elim ((Member-append x xs ys).0 m) [
    | inl here ↦ d.0 here
    | inr there ↦ apart x (inl refl) there
  ],
  append-NoDup xs ys d.1 e (λ t m. apart t (inr m)),
)

abbrev AreKeyed : Map (Map Tuple) → Type 0
AreKeyed m = (k : Str) (b : Map Tuple) → Member (k, b) m → Distinct b × IsKeyed k b

value-bucket :
    (t : Tuple) (k : Str) (b : Map Tuple)
    → Distinct b
    → IsKeyed k b
    → Member t (values b)
    → bucket_key t ≡ k
value-bucket t k b d keyed m =
    let (j, found) = Member-values t b d m in (keyed j t (Member_of_lookup j t b found)).0

scan-NoDup :
    (keep : Tuple → Bool) (m : Map (Map Tuple)) → Distinct m → AreKeyed m → NoDup (scan keep m)
unfolding scan
scan-NoDup keep [] d keyed = tt
scan-NoDup keep ((k, b) ∷ m) d keyed =
    let (db, kb) = keyed k b (inl refl) in
    append-NoDup (filter keep (values b)) (scan keep m)
      (filter-NoDup keep (values b) (bucket-NoDup k b db kb))
      (scan-NoDup keep m d.1 (λ i c mem. keyed i c (inr mem)))
      (λ t here there.
        let (i, c, mem, held, kept) = scan-values keep m t there in
        let (dc, kc) = keyed i c (inr mem) in
        let same_bucket =
          sym (value-bucket t i c dc kc held)
          ∙ value-bucket t k b db kb ((Member-filter t keep (values b)).0 here).0 in
        let found = subst (λ x. lookup x m ≡ some c) same_bucket (lookup_of_Member i c m d.1 mem) in
        absurd (ground (arith, d.0, found)))

-- A well filed index delivers no tuple twice.
pub filed-NoDup : (keep : Tuple → Bool) (m : Map (Map Tuple)) → IsFiled m → NoDup (scan keep m)
filed-NoDup keep m h = scan-NoDup keep m h.distinct (λ k b mem.
    let found = lookup_of_Member k b m h.distinct mem in
    let (distinct_here, full) = h.buckets k b found in
    (
      distinct_here,
      λ j t inside. h.filed k j b t found (lookup_of_Member j t b distinct_here inside),
    ))
