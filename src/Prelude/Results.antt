-- ===== src/Prelude/Results.antt =====
-- Go's `(value, error)` results: a value or an error, the chain of calls that return early on an
-- error, and the loop that does.
use mathlib.Core.Path.{◌≡◌, refl}
use mathlib.Core.Logic.{◌↔◌, ◌⊎◌, inl, inr}
use mathlib.Core.Bool.{Bool, true, false}
use mathlib.Core.List.{List, [], ◌∷◌}
use native.Mathlib.Omega.{arith}
use atol_sdk_go.Prelude.Lists.{All, All-Member, Member}

pub data Result (E A : Type 0) : Type 0 where
  ok : A → Result E A
  err : E → Result E A

infixl 5 ◌>>=◌ ◌>>◌
abbrev pub ◌>>=◌ : {E A B : Type 0} → Result E A → (A → Result E B) → Result E B
ok a >>= f = f a
err e >>= f = err e

abbrev pub ◌>>◌ : {E B : Type 0} → Result E (Unit {0}) → Result E B → Result E B
m >> k = m >>= λ _. k

-- `if !test { return e }`
abbrev pub guard : {E : Type 0} → Bool → E → Result E (Unit {0})
guard true e = ok tt
guard false e = err e

module _ {E A : Type 0} where
  pub Result-cases : (r : Result E A) → ((a : A) × (r ≡ ok a)) ⊎ ((e : E) × (r ≡ err e))
  Result-cases (ok a) = inl (a, refl)
  Result-cases (err e) = inr (e, refl)

  -- `for _, x := range xs { if err := f(x); err != nil { return err } }`
  abbrev pub each : (A → Result E (Unit {0})) → List A → Result E (Unit {0})
  each f [] = ok tt
  each f (x ∷ xs) = let rest = each f xs in f x >> rest

  pub each-ok_iff :
      (f : A → Result E (Unit {0})) (xs : List A) → (each f xs ≡ ok tt) ↔ All (λ x. f x ≡ ok tt) xs
  each-ok_iff f [] = ground arith
  each-ok_iff f (x ∷ xs) = ground (arith, each-ok_iff f xs)

  -- What `each` accepts, it accepts at every element.
  pub each-Member :
      (f : A → Result E (Unit {0})) (xs : List A) (a : A)
      → each f xs ≡ ok tt
      → Member a xs
      → f a ≡ ok tt
  each-Member f xs a h m = All-Member (λ x. f x ≡ ok tt) xs a ((each-ok_iff f xs).0 h) m

pub >>-ok : {E : Type 0} (a b : Result E (Unit {0})) → (a >> b) ≡ ok tt → (a ≡ ok tt) × (b ≡ ok tt)
>>-ok a b h = ground arith
