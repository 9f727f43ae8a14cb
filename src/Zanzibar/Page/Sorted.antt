-- ===== src/Zanzibar/Page/Sorted.antt =====
-- The page that the loops build is the beginning of the sorted list of the tuples after the cursor.
use atol_sdk_go.Prelude.{
  ℕ, zero, suc, ◌≤◌, Bool, not, ◌≡◌, refl, inl, inr, List, [], ◌∷◌, length, take, filter, Option,
  Bool-cases, if◌then◌else◌, arith, ap, ◌∙◌,
}
use atol_sdk_go.Zanzibar.Model.Types.{Tuple}
use atol_sdk_go.Zanzibar.Page.Order.{tuple_less}
use atol_sdk_go.Zanzibar.Page.Read.{
  position, insert_tuple, is_before, insert_bounded_page_tuple, insert_all,
}

-- Insertion sort, the description that has no bound.
unfoldable pub sort_tuples : List Tuple → List Tuple → List Tuple
sort_tuples [] sorted = sorted
sort_tuples (t ∷ ts) sorted = sort_tuples ts (insert_tuple t sorted)

-- What a page may show: the tuples after the cursor.
abbrev pub follows : Option Tuple → Tuple → Bool
follows after t = not (is_before after t)

pub take-take : (n : ℕ) (xs : List Tuple) → take n (take (suc n) xs) ≡ take n xs
take-take zero xs = refl
take-take (suc n) [] = refl
take-take (suc n) (x ∷ xs) = ap (λ k. x ∷ k) (take-take n xs)

-- A bounded insertion into the beginning is the beginning of the insertion.
take-insert_tuple :
    (n : ℕ) (t : Tuple) (xs : List Tuple)
    → take n (insert_tuple t (take n xs)) ≡ take n (insert_tuple t xs)
unfolding insert_tuple
take-insert_tuple zero t xs = refl
take-insert_tuple (suc n) t [] = refl
take-insert_tuple (suc n) t (u ∷ us) = elim (Bool-cases (tuple_less u t)) [
  | inl before ↦ ground (arith, take-insert_tuple n t us)
  | inr here ↦ ground (arith, take_cons n u us)
]
  where
    take_cons : (m : ℕ) (v : Tuple) (vs : List Tuple) → take m (v ∷ take m vs) ≡ take m (v ∷ vs)
    take_cons zero v vs = refl
    take_cons (suc m) v vs = ap (λ k. v ∷ k) (take-take m vs)

pub take_short : (n : ℕ) (xs : List Tuple) → length xs ≤ n → take n xs ≡ xs
take_short zero [] h = refl
take_short zero (x ∷ xs) h = absurd (omega arith)
take_short (suc n) [] h = refl
take_short (suc n) (x ∷ xs) h = ap (λ k. x ∷ k) (take_short n xs (omega arith))

pub length-take-le : (n : ℕ) (xs : List Tuple) → length (take n xs) ≤ n
length-take-le zero xs = omega arith
length-take-le (suc n) [] = omega arith
length-take-le (suc n) (x ∷ xs) = omega (arith, length-take-le n xs)

pub length-insert_tuple :
    (t : Tuple) (xs : List Tuple) → length (insert_tuple t xs) ≡ suc (length xs)
unfolding insert_tuple
length-insert_tuple t [] = refl
length-insert_tuple t (u ∷ us) = ground (arith, length-insert_tuple t us)

-- At the end of a full page there is nothing to insert.
take-position :
    (t : Tuple) (xs : List Tuple)
    → position t xs ≡ length xs
    → take (length xs) (insert_tuple t xs) ≡ xs
unfolding position insert_tuple
take-position t [] h = refl
take-position t (u ∷ us) h = ground (arith, take-position t us)

insert_bounded-take :
    (after : Option Tuple) (n : ℕ) (t : Tuple) (xs : List Tuple)
    → insert_bounded_page_tuple after n t (take n xs)
      ≡ (if follows after t then take n (insert_tuple t xs) else take n xs)
unfolding insert_bounded_page_tuple
insert_bounded-take after n t xs = elim (Bool-cases (is_before after t)) [
  | inl skipped ↦ ground arith
  | inr shown ↦
      let bounded : take n (insert_tuple t (take n xs)) ≡ take n (insert_tuple t xs) =
        take-insert_tuple n t xs in
      ground (
        arith,
        bounded,
        take-position t (take n xs),
        length-take-le n xs,
        take_short n (insert_tuple t (take n xs)),
      )
]

-- The loops build the first tuples of the sorted list.
pub insert_all-sort_tuples :
    (after : Option Tuple) (n : ℕ) (ts sorted : List Tuple)
    → insert_all after n ts (take n sorted)
      ≡ take n (sort_tuples (filter (follows after) ts) sorted)
unfolding insert_all sort_tuples
insert_all-sort_tuples after n [] sorted = refl
insert_all-sort_tuples after n (t ∷ ts) sorted = elim (Bool-cases (follows after t)) [
  | inl shown ↦
      ap (insert_all after n ts) (insert_bounded-take after n t sorted ∙ ground arith)
      ∙ insert_all-sort_tuples after n ts (insert_tuple t sorted)
      ∙ ground arith
  | inr skipped ↦
      ap (insert_all after n ts) (insert_bounded-take after n t sorted ∙ ground arith)
      ∙ insert_all-sort_tuples after n ts sorted
      ∙ ground arith
]
