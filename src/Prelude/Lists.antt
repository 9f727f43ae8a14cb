-- ===== src/Prelude/Lists.antt =====
-- Lists under native lengths, and the predicates and maps that the components share.
use Prim.Native.Nat.{ℕ, zero, suc, ◌+◌, ◌-◌, ◌≤◌}
use mathlib.Core.Path.{◌≡◌, refl, ap, subst}
use mathlib.Core.Logic.{◌↔◌, ◌⊎◌, inl, inr}
use mathlib.Core.Bool.{Bool, true}
use mathlib.Core.List.{List, [], ◌∷◌, ◌++◌, map}
use native.Mathlib.Omega.{arith}
use atol_sdk_go.Prelude.Tests.{if◌then◌else◌}

module _ {ℓ} {A : Type ℓ} where
  abbrev pub length : List A → ℕ
  length [] = 0
  length (x ∷ xs) = suc (length xs)

  abbrev pub take : ℕ → List A → List A
  take zero xs = []
  take (suc n) [] = []
  take (suc n) (x ∷ xs) = x ∷ take n xs

  abbrev pub filter : (A → Bool) → List A → List A
  filter p [] = []
  filter p (x ∷ xs) = let rest = filter p xs in if p x then x ∷ rest else rest

  -- `xs[n:]`
  abbrev pub drop : ℕ → List A → List A
  drop zero xs = xs
  drop (suc n) [] = []
  drop (suc n) (x ∷ xs) = drop n xs

  pub take-drop : (n : ℕ) (xs : List A) → take n xs ++ drop n xs ≡ xs
  take-drop zero xs = refl
  take-drop (suc n) [] = refl
  take-drop (suc n) (x ∷ xs) = ap (λ ys. x ∷ ys) (take-drop n xs)

  pub length-drop : (n : ℕ) (xs : List A) → length (drop n xs) ≡ length xs - n
  length-drop zero xs = omega arith
  length-drop (suc n) [] = omega arith
  length-drop (suc n) (x ∷ xs) = omega (arith, length-drop n xs)

  pub append_assoc : (xs ys zs : List A) → (xs ++ ys) ++ zs ≡ xs ++ (ys ++ zs)
  append_assoc [] ys zs = refl
  append_assoc (x ∷ xs) ys zs = ap (λ us. x ∷ us) (append_assoc xs ys zs)

  pub append_nil : (xs : List A) → xs ++ [] ≡ xs
  append_nil [] = refl
  append_nil (x ∷ xs) = ap (λ ys. x ∷ ys) (append_nil xs)

  pub length-append : (xs ys : List A) → length (xs ++ ys) ≡ length xs + length ys
  length-append [] ys = omega arith
  length-append (x ∷ xs) ys = omega (arith, length-append xs ys)

  pub length-filter : (p : A → Bool) (xs : List A) → length (filter p xs) ≤ length xs
  length-filter p [] = omega arith
  length-filter p (x ∷ xs) = ground (arith, length-filter p xs)

abbrev pub All {ℓ κ} : {A : Type ℓ} → (A → Type κ) → List A → Type κ
All P [] = Unit
All P (x ∷ xs) = P x × All P xs

module _ {A : Type 0} where
  -- Membership by recursion, which the tactics take apart.
  abbrev pub Member : A → List A → Type 0
  Member a [] = ⊥
  Member a (x ∷ xs) = (a ≡ x) ⊎ Member a xs

  pub Member-append : (a : A) (xs ys : List A) → Member a (xs ++ ys) ↔ (Member a xs ⊎ Member a ys)
  Member-append a [] ys = ground arith
  Member-append a (x ∷ xs) ys = ground (arith, Member-append a xs ys)

  pub Member-filter :
      (a : A) (p : A → Bool) (xs : List A) → Member a (filter p xs) ↔ (Member a xs × (p a ≡ true))
  Member-filter a p [] = ground arith
  Member-filter a p (x ∷ xs) = ground (arith, Member-filter a p xs)

  pub All-Member {κ} : (P : A → Type κ) (xs : List A) (a : A) → All P xs → Member a xs → P a
  All-Member P [] a h m = absurd m
  All-Member P (x ∷ xs) a h (inl e) = rw e h.0
  All-Member P (x ∷ xs) a h (inr m) = All-Member P xs a h.1 m

  pub All-of_Member {κ} : (P : A → Type κ) (xs : List A) → ((a : A) → Member a xs → P a) → All P xs
  All-of_Member P [] f = tt
  All-of_Member P (x ∷ xs) f = (f x (inl refl), All-of_Member P xs (λ a m. f a (inr m)))

  pub filter-keeps_All : (p : A → Bool) (xs : List A) → All (λ x. p x ≡ true) xs → filter p xs ≡ xs
  filter-keeps_All p [] h = refl
  filter-keeps_All p (x ∷ xs) h = ground (arith, filter-keeps_All p xs h.1)

module _ {A B : Type 0} where
  abbrev pub concat_map : (A → List B) → List A → List B
  concat_map f [] = []
  concat_map f (x ∷ xs) = f x ++ concat_map f xs

  pub Member-concat_map :
      (f : A → List B) (xs : List A) (a : A) (b : B)
      → Member a xs
      → Member b (f a)
      → Member b (concat_map f xs)
  Member-concat_map f [] a b m n = absurd m
  Member-concat_map f (x ∷ xs) a b (inl e) n =
      (Member-append b (f x) (concat_map f xs)).1 (inl (subst (λ y. Member b (f y)) e n))
  Member-concat_map f (x ∷ xs) a b (inr m) n =
      (Member-append b (f x) (concat_map f xs)).1 (inr (Member-concat_map f xs a b m n))

  pub Member-map : (f : A → B) (xs : List A) (a : A) → Member a xs → Member (f a) (map f xs)
  Member-map f [] a m = m
  Member-map f (x ∷ xs) a (inl e) = inl (ap f e)
  Member-map f (x ∷ xs) a (inr m) = inr (Member-map f xs a m)
