-- ===== src/Prelude/Text.antt =====
-- Go strings as lists of bytes: equality, the byte order, and cutting at a separator as the
-- strings package of Go's standard library does.
use Prim.Native.Char.{code}
use Prim.Native.String.{String}
use Prim.Native.Nat.{ℕ, compare, Ordering}
use mathlib.Core.Path.{◌≡◌, refl, ap, ap₂, ◌∙◌, sym}
use mathlib.Core.Logic.{◌≢◌}
use mathlib.Core.Bool.{Bool, true, false, not}
use mathlib.Core.List.{List, [], ◌∷◌, ◌++◌}
use mathlib.Core.Option.{Option, none, some}
use native.Mathlib.Decide.{ℕ_discrete}
use native.Mathlib.Omega.{arith}
use atol_sdk_go.Prelude.Tests.{eqb, if◌then◌else◌}

abbrev pub Str : Type 0
Str = List ℕ

-- The bytes of an ASCII literal.
abbrev pub bytes : String → Str
bytes String.[] = []
bytes (String.◌∷◌ c s) = code c ∷ bytes s

nil-ne-cons : {a : ℕ} {s : Str} → [] ≡ a ∷ s → ⊥
nil-ne-cons e = cc

head-eq : {a b : ℕ} {s t : Str} → a ∷ s ≡ b ∷ t → a ≡ b
head-eq e = cc

tail-eq : {a b : ℕ} {s t : Str} → a ∷ s ≡ b ∷ t → s ≡ t
tail-eq e = cc

unfoldable pub str_dec : (s t : Str) → Dec (s ≡ t)
unfolding ℕ_discrete nil-ne-cons head-eq tail-eq
str_dec [] [] = yes refl
str_dec [] (b ∷ t) = no nil-ne-cons
str_dec (a ∷ s) [] = no (λ e. nil-ne-cons (sym e))
str_dec (a ∷ s) (b ∷ t) =
    let rest = str_dec s t in
    elim (ℕ_discrete a b) [
      | yes p ↦ elim rest [ yes q ↦ yes (ap₂ ◌∷◌ p q) | no n ↦ no (λ e. n (tail-eq e)) ]
      | no n ↦ no (λ e. n (head-eq e))
    ]

-- These compute to `str_dec`, on which `ground` splits.
infix 50 ◌==◌ ◌!=◌
abbrev pub ◌==◌ : Str → Str → Bool
s == t = elim (str_dec s t) [ yes _ ↦ true | no _ ↦ false ]

abbrev pub ◌!=◌ : Str → Str → Bool
s != t = not (s == t)

pub ==_sym : (s t : Str) → (s == t) ≡ (t == s)
==_sym s t = ground arith

-- Go's `<` on strings: bytewise, a proper prefix first.
unfoldable pub str_lt : Str → Str → Bool
str_lt s [] = false
str_lt [] (b ∷ t) = true
str_lt (a ∷ s) (b ∷ t) =
    let rest = str_lt s t in
    elim (compare a b) [ Ordering.lt ↦ true | Ordering.eq ↦ rest | Ordering.gt ↦ false ]

pub str_lt_irrefl : (s : Str) → str_lt s s ≡ false
unfolding str_lt
str_lt_irrefl [] = refl
str_lt_irrefl (a ∷ s) = ground (arith, str_lt_irrefl s)

pub str_lt_trans : (s t u : Str) → str_lt s t ≡ true → str_lt t u ≡ true → str_lt s u ≡ true
unfolding str_lt
str_lt_trans s t [] h k = cc
str_lt_trans s [] (c ∷ u) h k = cc
str_lt_trans [] (b ∷ t) (c ∷ u) h k = refl
str_lt_trans (a ∷ s) (b ∷ t) (c ∷ u) h k = ground (arith, str_lt_trans s t u)

pub str_lt_total : (s t : Str) → s ≢ t → str_lt s t ≡ false → str_lt t s ≡ true
unfolding str_lt
str_lt_total [] [] n h = absurd (n refl)
str_lt_total [] (b ∷ t) n h = cc
str_lt_total (a ∷ s) [] n h = refl
str_lt_total (a ∷ s) (b ∷ t) n h = ground (arith, str_lt_total s t)

-- The string has no byte `c`.
abbrev pub Lacks : ℕ → Str → Type 0
Lacks c [] = Unit
Lacks c (x ∷ s) = (x ≢ c) × Lacks c s

-- `strings.Cut(s, sep)` at a separator of one byte; `none` is its `found == false`.
-- `strings.SplitN(s, sep, 2)` has two parts exactly where it finds one, and they are these.
unfoldable pub cut : ℕ → Str → Option (Str × Str)
cut c [] = none
cut c (x ∷ s) =
    let rest = cut c s in
    if eqb x c then some ([], s) else elim rest [ none ↦ none | some (p, q) ↦ some (x ∷ p, q) ]

pub cut-append : (c : ℕ) (s t : Str) → Lacks c s → cut c (s ++ (c ∷ t)) ≡ some (s, t)
unfolding cut
cut-append c [] t h = ground arith
cut-append c (x ∷ s) t h = ground (arith, cut-append c s t h.1)

pub cut_lacks : (c : ℕ) (s : Str) → Lacks c s → cut c s ≡ none
unfolding cut
cut_lacks c [] h = refl
cut_lacks c (x ∷ s) h = ground (arith, cut_lacks c s h.1)

some_pair :
    (s t u v : Str) → ◌≡◌ {A = Option (Str × Str)} (some (s, t)) (some (u, v)) → (s ≡ u) × (t ≡ v)
some_pair s t u v e = ground arith

-- Two strings joined by a separator that neither first part has determine their parts.
pub join_injective :
    (c : ℕ) (s t u v : Str)
    → Lacks c s
    → Lacks c u
    → s ++ (c ∷ t) ≡ u ++ (c ∷ v)
    → (s ≡ u) × (t ≡ v)
join_injective c s t u v hs hu e =
    some_pair s t u v (sym (cut-append c s t hs) ∙ ap (cut c) e ∙ cut-append c u v hu)
