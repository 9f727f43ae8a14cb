-- ===== src/Hmac/Bytes.antt =====
-- Byte slices as hmac/stream.go uses them: big-endian numbers (encoding/binary), slices, and io.ReadFull
-- of a source that is the bytes it still delivers before its EOF.
use atol_sdk_go.Prelude.{
  ℕ, zero, suc, ◌+◌, ◌-◌, ◌*◌, ◌/◌, ◌%◌, ◌^◌, ◌<◌, ltb, eqb, [], ◌∷◌, ◌++◌, length, take, drop, Str,
  ◌≡◌, refl, ap, arith, if◌then◌else◌, length-append,
}
use native.Mathlib.Nat.{zero-add, suc-add}

-- PutUint32 and PutUint64 are at the widths 4 and 8.
unfoldable pub put_be : ℕ → ℕ → Str
put_be zero n = []
put_be (suc w) n = put_be w (n / 256) ++ ((n % 256) ∷ [])

unfoldable pub get_be : ℕ → Str → ℕ
get_be acc [] = acc
get_be acc (b ∷ bs) = get_be (acc * 256 + b) bs

-- Uint32 and Uint64.
abbrev pub uint : Str → ℕ
uint s = get_be 0 s

-- frame[lo:hi]
abbrev pub slice : ℕ → ℕ → Str → Str
slice lo hi s = take (hi - lo) (drop lo s)

pub data Filled : Type 0 where
  full : Str → Str → Filled
  at_eof : Filled
  cut_short : Filled

-- ReadFull into a buffer of n bytes: the bytes and what is left.
unfoldable pub read_full : ℕ → Str → Filled
read_full n s =
    if ltb (length s) n
    then if eqb (length s) 0 then at_eof else cut_short
    else full (take n s) (drop n s)

pub length-put_be : (w n : ℕ) → length (put_be w n) ≡ w
unfolding put_be
length-put_be zero n = refl
length-put_be (suc w) n =
    omega (arith, length-append (put_be w (n / 256)) ((n % 256) ∷ []), length-put_be w (n / 256))

get_be-append : (acc : ℕ) (xs ys : Str) → get_be acc (xs ++ ys) ≡ get_be (get_be acc xs) ys
unfolding get_be
get_be-append acc [] ys = refl
get_be-append acc (x ∷ xs) ys = get_be-append (acc * 256 + x) xs ys

pow_step : (w : ℕ) → 256 ^ suc w ≡ 256 * 256 ^ w
pow_step w = omega arith

get_be-put_be : (w n acc : ℕ) → n < 256 ^ w → get_be acc (put_be w n) ≡ acc * 256 ^ w + n
unfolding put_be get_be
get_be-put_be zero n acc h = omega arith
get_be-put_be (suc w) n acc h = omega (
  arith,
  get_be-append acc (put_be w (n / 256)) ((n % 256) ∷ []),
  get_be-put_be w (n / 256) acc (omega (arith, pow_step w)),
  ap (λ (t : ℕ). acc * t) (pow_step w),
)

-- A number below the bound of the width is read back.
pub uint-put_be : (w n : ℕ) → n < 256 ^ w → uint (put_be w n) ≡ n
uint-put_be w n h = omega (arith, get_be-put_be w n 0 h)

pub take_at : (n : ℕ) (xs ys : Str) → length xs ≡ n → take n (xs ++ ys) ≡ xs
take_at zero [] ys h = refl
take_at zero (x ∷ xs) ys h = absurd (omega arith)
take_at (suc n) [] ys h = absurd (omega arith)
take_at (suc n) (x ∷ xs) ys h = ap (λ l. x ∷ l) (take_at n xs ys (omega arith))

pub drop_at : (n : ℕ) (xs ys : Str) → length xs ≡ n → drop n (xs ++ ys) ≡ ys
drop_at zero [] ys h = refl
drop_at zero (x ∷ xs) ys h = absurd (omega arith)
drop_at (suc n) [] ys h = absurd (omega arith)
drop_at (suc n) (x ∷ xs) ys h = drop_at n xs ys (omega arith)

pub drop_past : (n k : ℕ) (xs ys : Str) → length xs ≡ n → drop (n + k) (xs ++ ys) ≡ drop k ys
drop_past zero k [] ys h = rw zero-add
drop_past zero k (x ∷ xs) ys h = absurd (omega arith)
drop_past (suc n) k [] ys h = absurd (omega arith)
drop_past (suc n) k (x ∷ xs) ys h = rw suc-add (drop_past n k xs ys (omega arith))

-- The bytes that stand first in the source fill a buffer of their length.
pub read_full-append : (n : ℕ) (xs ys : Str) → length xs ≡ n → read_full n (xs ++ ys) ≡ full xs ys
unfolding read_full
read_full-append n xs ys h =
    ground (arith, take_at n xs ys h, drop_at n xs ys h, length-append xs ys)
