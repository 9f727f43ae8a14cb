-- ===== src/Sdk/Safeconv.antt =====
-- internal/safeconv/safeconv.go. The argument is any integer; Go's is an int64 (an int for SafeInt32).
use atol_sdk_go.Prelude.{ℤ, pos, negsuc, less, ◌||◌, Result, ok, err, if◌then◌else◌}

-- math.MaxInt32 and math.MinInt32.
abbrev pub max_int32 : ℤ
max_int32 = pos 2147483647

abbrev pub min_int32 : ℤ
min_int32 = negsuc 2147483647

-- SafeInt32 and SafeInt32From64.
unfoldable pub safe_int32 : ℤ → Result ℤ ℤ
safe_int32 v = if less max_int32 v || less v min_int32 then err v else ok v

-- `v, _ := safeconv.SafeInt32From64(...)`: zero on an error.
abbrev pub int32_or_zero : ℤ → ℤ
int32_or_zero v = elim (safe_int32 v) [ err e ↦ pos 0 | ok w ↦ w ]
