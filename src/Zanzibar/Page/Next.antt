-- ===== src/Zanzibar/Page/Next.antt =====
-- One page (zanzibar/store/memory.go, ReadPage and ReadPageExcludingSubject), and where the next one
-- goes on.
use atol_sdk_go.Prelude.{
  drop, ℕ, zero, suc, ◌<◌, Bool, true, ◌≡◌, refl, inl, inr, ◌↔◌, List, [], ◌∷◌, length, take,
  filter, filter-keeps_All, Member, Member-filter, All, All-Member, Option, none, some, arith, sym,
  ap, ◌∙◌,
}
use atol_sdk_go.Zanzibar.Model.Types.{Tuple}
use atol_sdk_go.Zanzibar.Page.Order.{
  tuple_less, tuple_less_irrefl, tuple_less_trans, tuple_less_asym,
}
use atol_sdk_go.Zanzibar.Page.Read.{last_tuple}
use atol_sdk_go.Zanzibar.Page.Sorted.{sort_tuples, follows}
use atol_sdk_go.Zanzibar.Page.Strict.{
  NoDup, Above, Strict, Member-sort_tuples, sort_tuples-Strict, filter-sort_tuples, filter-NoDup,
}

-- After the last tuple of the beginning of a strict list comes the rest of the list.
pub follows-drop :
    (n : ℕ) (xs : List Tuple)
    → Strict xs
    → suc n < length xs
    → (last : Tuple) × (last_tuple (take (suc n) xs) ≡ some last)
      × Member last xs
      × (filter (follows (some last)) xs ≡ drop (suc n) xs)
unfolding last_tuple
follows-drop n [] s h = absurd (omega arith)
follows-drop zero (x ∷ xs) s h = (
  x,
  refl,
  inl refl,
  ground (arith, tuple_less_irrefl x, filter-keeps_All (follows (some x)) xs (all_follow xs s.0)),
)
  where
    all_follow : (ys : List Tuple) → Above x ys → All (λ y. follows (some x) y ≡ true) ys
    all_follow [] a = tt
    all_follow (y ∷ ys) a = (ground (arith, a.0), all_follow ys a.1)
follows-drop (suc n) (x ∷ []) s h = absurd (omega arith)
follows-drop (suc n) (x ∷ y ∷ ys) s h =
    let (last, e, m, rest) = follows-drop n (y ∷ ys) s.1 (omega arith) in
    let below =
      tuple_less_asym x last (All-Member (λ u. tuple_less x u ≡ true) (y ∷ ys) last s.0 m) in
    (last, e, inr m, ground (arith, rest, below))

filter-filter :
    (p q : Tuple → Bool) (xs : List Tuple)
    → ((x : Tuple) → q x ≡ true → p x ≡ true)
    → filter q (filter p xs) ≡ filter q xs
filter-filter p q [] h = refl
filter-filter p q (x ∷ xs) h = ground (arith, filter-filter p q xs h, h x)

follows_trans :
    (after : Option Tuple) (last t : Tuple)
    → follows after last ≡ true
    → follows (some last) t ≡ true
    → follows after t ≡ true
follows_trans none last t h k = refl
follows_trans (some a) last t h k = ground (arith, tuple_less_trans a last t)

-- What is left to show after the cursor.
abbrev pub remaining : List Tuple → Option Tuple → List Tuple
remaining cands after = sort_tuples (filter (follows after) cands) []

module _ (cands : List Tuple) (d : NoDup cands) where
  pub remaining-Strict : (after : Option Tuple) → Strict (remaining cands after)
  remaining-Strict after =
      sort_tuples-Strict (filter (follows after) cands) [] (filter-NoDup (follows after) cands d)
        (λ t m n. n) tt

  pub Member-remaining :
      (after : Option Tuple) (t : Tuple)
      → Member t (remaining cands after) ↔ (Member t cands × (follows after t ≡ true))
  Member-remaining after t = ground (
    arith,
    Member-sort_tuples t (filter (follows after) cands) [],
    Member-filter t (follows after) cands,
  )

  pub remaining_next :
      (n : ℕ) (after : Option Tuple)
      → suc n < length (remaining cands after)
      → (last : Tuple) × (last_tuple (take (suc n) (remaining cands after)) ≡ some last)
        × Member last cands
        × (remaining cands (some last) ≡ drop (suc n) (remaining cands after))
  remaining_next n after h =
      let (last, e, m, rest) = follows-drop n (remaining cands after) (remaining-Strict after) h in
      let (held, shown) = (Member-remaining after last).0 m in
      (
        last,
        e,
        held,
        ap (λ xs. sort_tuples xs [])
              (sym (
                filter-filter (follows after) (follows (some last)) cands
                  (λ x k. follows_trans after last x shown k)))
            ∙ sym (
                filter-sort_tuples (follows (some last)) (filter (follows after) cands) []
                  (filter-NoDup (follows after) cands d) (λ t m' k. k) tt)
            ∙ rest,
      )
