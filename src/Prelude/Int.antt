-- ===== src/Prelude/Int.antt =====
-- Signed integers, for Go's int64: `negsuc n` is -(n + 1).
use Prim.Native.Nat.{ℕ, ◌+◌, ◌-◌, ◌*◌}
use mathlib.Core.Path.{◌≡◌, ap}
use mathlib.Core.Bool.{Bool, true, false}
use native.Mathlib.Omega.{arith}
use atol_sdk_go.Prelude.Tests.{ltb, leb, eqb, if◌then◌else◌}

pub data ℤ : Type 0 where
  pos : ℕ → ℤ
  negsuc : ℕ → ℤ

abbrev pub less : ℤ → ℤ → Bool
less (pos a) (pos b) = ltb a b
less (pos a) (negsuc b) = false
less (negsuc a) (pos b) = true
less (negsuc a) (negsuc b) = ltb b a

abbrev pub same : ℤ → ℤ → Bool
same (pos a) (pos b) = eqb a b
same (pos a) (negsuc b) = false
same (negsuc a) (pos b) = false
same (negsuc a) (negsuc b) = eqb a b

-- `a - b` of two numbers.
abbrev pub difference : ℕ → ℕ → ℤ
difference a b = if leb b a then pos (a - b) else negsuc (b - (a + 1))

-- `z + n` and `z * n` for a number n.
abbrev pub plus : ℤ → ℕ → ℤ
plus (pos a) n = pos (a + n)
plus (negsuc a) n = difference n (a + 1)

abbrev pub scale : ℤ → ℕ → ℤ
scale (pos a) n = pos (a * n)
scale (negsuc a) n = difference 0 ((a + 1) * n)

pub less_trans : (a b c : ℤ) → less a b ≡ true → less b c ≡ true → less a c ≡ true
less_trans a b c h k = ground arith

pub less_asym : (a b : ℤ) → less a b ≡ true → less b a ≡ false
less_asym a b h = ground arith

pub less_total : (a b : ℤ) → less a b ≡ false → same b a ≡ false → less b a ≡ true
less_total a b h k = ground arith

pub less_irrefl : (a : ℤ) → less a a ≡ false
less_irrefl a = ground arith

pub not_less_trans : (a b c : ℤ) → less b a ≡ false → less c b ≡ false → less c a ≡ false
not_less_trans a b c h k = ground arith

pub not_less_eq : (a b : ℤ) → less a b ≡ false → less b a ≡ false → a ≡ b
not_less_eq (pos a) (pos b) h k = ap pos (ground arith)
not_less_eq (pos a) (negsuc b) h k = absurd (ground arith)
not_less_eq (negsuc a) (pos b) h k = absurd (ground arith)
not_less_eq (negsuc a) (negsuc b) h k = ap negsuc (ground arith)
