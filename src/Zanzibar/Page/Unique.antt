-- ===== src/Zanzibar/Page/Unique.antt =====
-- The pages together are the result of Read in order (zanzibar/store/memory.go).
use atol_sdk_go.Prelude.{
  append_nil, ℕ, true, ◌≡◌, refl, inl, inr, ◌↔◌, ◌&&◌, List, [], ◌∷◌, ◌++◌, filter, Member,
  All-Member, lookup, lookup_of_Member, none, ◌!=◌, Bool-cases, Option-cases, arith, sym, ap, subst,
  ◌∙◌,
}
use atol_sdk_go.Zanzibar.Model.Types.{Tuple, TupleFilter, matches_filter}
use atol_sdk_go.Zanzibar.Store.Memory.{
  read, read_indexed, filter_tuples, MemoryStore, values, scan_materialized,
}
use atol_sdk_go.Zanzibar.Store.Index.{Holds, IsFiled}
use atol_sdk_go.Zanzibar.Model.Keys.{object_relation_key}
use atol_sdk_go.Zanzibar.Page.Cursor.{CursorCodec}
use atol_sdk_go.Zanzibar.Page.Sorted.{sort_tuples, follows}
use atol_sdk_go.Zanzibar.Page.Strict.{
  Above, Member-sort_tuples, sort_tuples-Strict, NoDup, Strict, filter-NoDup,
}
use atol_sdk_go.Zanzibar.Page.Next.{remaining, remaining-Strict, Member-remaining}
use atol_sdk_go.Zanzibar.Page.Distinct.{IsKeyed, bucket-NoDup, filed-NoDup}
use atol_sdk_go.Zanzibar.Page.Order.{tuple_less, tuple_less_irrefl, tuple_less_asym}
use atol_sdk_go.Zanzibar.Page.Whole.{matching, matching-NoDup, Member-matching}
use atol_sdk_go.Zanzibar.Store.Queries.{read_indexed_iff}

first_same :
    (x y : Tuple) (xs ys : List Tuple)
    → Strict (x ∷ xs)
    → Strict (y ∷ ys)
    → ((t : Tuple) → Member t (x ∷ xs) ↔ Member t (y ∷ ys))
    → x ≡ y
first_same x y xs ys s r both = elim ((both x).0 (inl refl)) [
  | inl e ↦ e
  | inr later ↦ elim ((both y).1 (inl refl)) [
    | inl e ↦ sym e
    | inr late ↦
        let up = All-Member (λ u. tuple_less y u ≡ true) ys x r.0 later in
        let down = All-Member (λ u. tuple_less x u ≡ true) xs y s.0 late in
        absurd (ground (arith, up, down, tuple_less_asym x y down))
  ]
]

not_Above : (x : Tuple) (xs : List Tuple) → Above x xs → ¬ Member x xs
not_Above x xs a m =
    let less = All-Member (λ u. tuple_less x u ≡ true) xs x a m in
    absurd (ground (arith, less, tuple_less_irrefl x))

rest_same :
    (x y : Tuple) (xs ys : List Tuple)
    → x ≡ y
    → Above x xs
    → ((t : Tuple) → Member t (x ∷ xs) ↔ Member t (y ∷ ys))
    → (t : Tuple) → Member t xs
    → Member t ys
rest_same x y xs ys e a both t m = elim ((both t).0 (inr m)) [
  | inr later ↦ later
  | inl here ↦ absurd (not_Above x xs a (subst (λ u. Member u xs) (here ∙ sym e) m))
]

-- Two strict lists of the same tuples are equal.
pub Strict-unique :
    (xs ys : List Tuple)
    → Strict xs
    → Strict ys
    → ((t : Tuple) → Member t xs ↔ Member t ys)
    → xs ≡ ys
Strict-unique [] [] s r both = refl
Strict-unique [] (y ∷ ys) s r both = absurd ((both y).1 (inl refl))
Strict-unique (x ∷ xs) [] s r both = absurd ((both x).0 (inl refl))
Strict-unique (x ∷ xs) (y ∷ ys) s r both =
    let e = first_same x y xs ys s r both in
    ap (λ t. t ∷ xs) e
    ∙ ap (λ us. y ∷ us)
        (Strict-unique xs ys s.1 r.1 (λ t. (
          rest_same x y xs ys e s.0 both t,
          rest_same y x ys xs (sym e) r.0 (λ u. ((both u).1, (both u).0)) t,
        )))

read_indexed-NoDup :
    (f : TupleFilter) (s : MemoryStore) → IsFiled s.by_object_relation → NoDup (read_indexed f s)
unfolding read_indexed filter_tuples
read_indexed-NoDup f s h =
    elim (Bool-cases (f.object_type != [] && (f.object_id != [] && f.relation != []))) [
      | inr part ↦
          ground (arith, part, filed-NoDup (λ t. matches_filter t f) s.by_object_relation h)
      | inl full ↦
          let k = object_relation_key f.object_type f.object_id f.relation in
          elim (Option-cases (lookup k s.by_object_relation)) [
            | inl miss ↦ ground (arith, full, miss)
            | inr (b, found) ↦
                let (distinct_here, not_empty) = h.buckets k b found in
                let keyed : IsKeyed k b = λ j t inside.
                  h.filed k j b t found (lookup_of_Member j t b distinct_here inside) in
                ground (
                  arith,
                  full,
                  found,
                  filter-NoDup (λ t. matches_filter t f) (values b)
                      (bucket-NoDup k b distinct_here keyed),
                )
          ]
    ]

follows_all : (ts : List Tuple) → filter (follows none) ts ≡ ts
follows_all [] = refl
follows_all (t ∷ ts) = ap (λ us. t ∷ us) (follows_all ts)

pub read-plain :
    (f : TupleFilter) (s : MemoryStore) → s.materialized ≡ [] → read f s ≡ read_indexed f s
unfolding read scan_materialized
read-plain f s h =
    ap (λ m. read_indexed f s ++ scan_materialized (λ t. matches_filter t f) m) h
    ∙ append_nil (read_indexed f s)

-- What all pages show is the result of Read, in order.
pub remaining-read :
    (codec : CursorCodec) (f : TupleFilter) (s : MemoryStore) (limit : ℕ)
    → IsFiled s.by_object_relation
    → s.materialized ≡ []
    → remaining (matching codec f s limit) none ≡ sort_tuples (read f s) []
remaining-read codec f s limit filed none_else =
    let cands = matching codec f s limit in
    let once = matching-NoDup codec f s limit filed none_else in
    let read_once : NoDup (read f s) =
      subst NoDup (sym (read-plain f s none_else)) (read_indexed-NoDup f s filed) in
    Strict-unique (remaining cands none) (sort_tuples (read f s) [])
      (remaining-Strict cands once none)
      (sort_tuples-Strict (read f s) [] read_once (λ t m n. n) tt)
      (λ t.
        let (to, from) = read_indexed_iff f s t filed in
        let within : Member t (read f s) ↔ (Holds s t × (matches_filter t f ≡ true)) = (
          λ m. to (subst (Member t) (read-plain f s none_else) m),
          λ h. subst (Member t) (sym (read-plain f s none_else)) (from h),
        ) in
        ground (
          arith,
          Member-remaining cands once none t,
          Member-sort_tuples t (read f s) [],
          Member-matching codec f s limit t filed none_else,
          within,
        ))
