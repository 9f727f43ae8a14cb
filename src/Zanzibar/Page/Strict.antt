-- ===== src/Zanzibar/Page/Strict.antt =====
-- Sorted lists of distinct tuples, in the order of pages.
use atol_sdk_go.Prelude.{
  Bool, true, ◌≡◌, refl, ◌⊎◌, inl, inr, ◌↔◌, List, [], ◌∷◌, filter, Member, Member-filter, All,
  Bool-cases, if◌then◌else◌, arith, sym, subst,
}
use atol_sdk_go.Zanzibar.Model.Types.{Tuple}
use atol_sdk_go.Zanzibar.Page.Order.{
  tuple_less, tuple_less_trans, tuple_less_total, tuple_less_asym,
}
use atol_sdk_go.Zanzibar.Page.Read.{insert_tuple}
use atol_sdk_go.Zanzibar.Page.Sorted.{sort_tuples}

abbrev pub NoDup : List Tuple → Type 0
NoDup [] = Unit
NoDup (t ∷ ts) = (¬ Member t ts) × NoDup ts

abbrev pub Above : Tuple → List Tuple → Type 0
Above t us = All (λ u. tuple_less t u ≡ true) us

-- Each tuple is less than all that come after it.
abbrev pub Strict : List Tuple → Type 0
Strict [] = Unit
Strict (t ∷ ts) = Above t ts × Strict ts

pub Member-insert_tuple :
    (u t : Tuple) (xs : List Tuple) → Member u (insert_tuple t xs) ↔ ((u ≡ t) ⊎ Member u xs)
unfolding insert_tuple
Member-insert_tuple u t [] = ground arith
Member-insert_tuple u t (x ∷ xs) = ground (arith, Member-insert_tuple u t xs)

pub Member-sort_tuples :
    (u : Tuple) (ts sorted : List Tuple)
    → Member u (sort_tuples ts sorted) ↔ (Member u ts ⊎ Member u sorted)
unfolding sort_tuples
Member-sort_tuples u [] sorted = ground arith
Member-sort_tuples u (t ∷ ts) sorted =
    ground (arith, Member-sort_tuples u ts (insert_tuple t sorted), Member-insert_tuple u t sorted)

Above-trans : (t u : Tuple) (us : List Tuple) → tuple_less t u ≡ true → Above u us → Above t us
Above-trans t u [] h a = tt
Above-trans t u (v ∷ vs) h a = (tuple_less_trans t u v h a.0, Above-trans t u vs h a.1)

Above-insert_tuple :
    (t u : Tuple) (xs : List Tuple)
    → tuple_less u t ≡ true
    → Above u xs
    → Above u (insert_tuple t xs)
unfolding insert_tuple
Above-insert_tuple t u [] h a = (h, tt)
Above-insert_tuple t u (x ∷ xs) h a = ground (arith, Above-insert_tuple t u xs)

insert_tuple-Strict :
    (t : Tuple) (xs : List Tuple) → ¬ Member t xs → Strict xs → Strict (insert_tuple t xs)
unfolding insert_tuple
insert_tuple-Strict t [] new s = (tt, tt)
insert_tuple-Strict t (x ∷ xs) new s = elim (Bool-cases (tuple_less x t)) [
  | inl before ↦ ground (arith, insert_tuple-Strict t xs, Above-insert_tuple t x xs)
  | inr here ↦
      let less = tuple_less_total x t here (λ e. new (inl (sym e))) in
      ground (arith, Above-trans t x xs less s.0)
]

pub sort_tuples-Strict :
    (ts sorted : List Tuple)
    → NoDup ts
    → ((t : Tuple) → Member t ts → ¬ Member t sorted)
    → Strict sorted
    → Strict (sort_tuples ts sorted)
unfolding sort_tuples
sort_tuples-Strict [] sorted d apart s = s
sort_tuples-Strict (t ∷ ts) sorted d apart s =
    sort_tuples-Strict ts (insert_tuple t sorted) d.1
      (λ u m n. elim ((Member-insert_tuple u t sorted).0 n) [
        | inl e ↦ d.0 (subst (λ x. Member x ts) e m)
        | inr old ↦ apart u (inr m) old
      ])
      (insert_tuple-Strict t sorted (apart t (inl refl)) s)

-- A tuple below the whole list is inserted at its front.
insert_front : (t : Tuple) (xs : List Tuple) → Above t xs → insert_tuple t xs ≡ t ∷ xs
unfolding insert_tuple
insert_front t [] a = refl
insert_front t (x ∷ xs) a = ground (arith, tuple_less_asym t x a.0)

filter-Above : (p : Tuple → Bool) (t : Tuple) (xs : List Tuple) → Above t xs → Above t (filter p xs)
filter-Above p t [] a = tt
filter-Above p t (x ∷ xs) a = ground (arith, filter-Above p t xs a.1)

pub filter-Strict : (p : Tuple → Bool) (xs : List Tuple) → Strict xs → Strict (filter p xs)
filter-Strict p [] s = tt
filter-Strict p (x ∷ xs) s = ground (arith, filter-Strict p xs s.1, filter-Above p x xs s.0)

-- Filtering after an insertion into a strict list.
filter-insert_tuple :
    (p : Tuple → Bool) (t : Tuple) (xs : List Tuple)
    → ¬ Member t xs
    → Strict xs
    → filter p (insert_tuple t xs) ≡ (if p t then insert_tuple t (filter p xs) else filter p xs)
unfolding insert_tuple
filter-insert_tuple p t [] new s = refl
filter-insert_tuple p t (x ∷ xs) new s = elim (Bool-cases (tuple_less x t)) [
  | inl before ↦ ground (arith, filter-insert_tuple p t xs)
  | inr here ↦
      let less = tuple_less_total x t here (λ e. new (inl (sym e))) in
      let front =
        insert_front t (filter p xs) (filter-Above p t xs (Above-trans t x xs less s.0)) in
      ground (arith, front)
]

pub filter-sort_tuples :
    (p : Tuple → Bool) (ts sorted : List Tuple)
    → NoDup ts
    → ((t : Tuple) → Member t ts → ¬ Member t sorted)
    → Strict sorted
    → filter p (sort_tuples ts sorted) ≡ sort_tuples (filter p ts) (filter p sorted)
unfolding sort_tuples
filter-sort_tuples p [] sorted d apart s = refl
filter-sort_tuples p (t ∷ ts) sorted d apart s =
    let new = apart t (inl refl) in
    let rest =
      filter-sort_tuples p ts (insert_tuple t sorted) d.1
        (λ u m n. elim ((Member-insert_tuple u t sorted).0 n) [
          | inl e ↦ d.0 (subst (λ x. Member x ts) e m)
          | inr old ↦ apart u (inr m) old
        ])
        (insert_tuple-Strict t sorted new s) in
    ground (arith, rest, filter-insert_tuple p t sorted new s, Bool-cases (p t))

pub filter-NoDup : (p : Tuple → Bool) (xs : List Tuple) → NoDup xs → NoDup (filter p xs)
filter-NoDup p [] d = tt
filter-NoDup p (x ∷ xs) d = ground (arith, filter-NoDup p xs d.1, Member-filter x p xs)
