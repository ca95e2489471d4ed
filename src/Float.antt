-- ===== src/Float.antt =====
-- Rust's `f64`, as its bit pattern (`to_bits`): a number below 2^64 whose digit 63 is the sign and
-- whose other digits are the magnitude. Above the pattern of infinity lie the NaNs. The order of the
-- values that are no NaN is that of the magnitudes, turned round below zero (IEEE 754).
use indexed_db_boa.Base.{
  ℕ, ◌+◌, ◌/◌, ◌%◌, ◌^◌, ◌<◌, Bool, Option, none, some, ◌||◌, ltb, ◌==◌, if◌then◌else◌,
}
use indexed_db_boa.Base.Order.{Ordering, compare}

abbrev pub IsU64 : ℕ → Type 0
IsU64 b = b < 2 ^ 64

abbrev pub infinity : ℕ
infinity = 0x7FF0_0000_0000_0000

abbrev pub sign : ℕ → ℕ
sign b = b / 2 ^ 63

abbrev pub magnitude : ℕ → ℕ
magnitude b = b % 2 ^ 63

-- `f64::is_nan`
abbrev pub is_nan : ℕ → Bool
is_nan b = ltb infinity (magnitude b)

-- `v == 0.0`, which both zeros meet.
abbrev pub is_zero : ℕ → Bool
is_zero b = magnitude b == 0

-- `f64::partial_cmp`
unfoldable pub partial_cmp : ℕ → ℕ → Option Ordering
partial_cmp x y =
    if is_nan x || is_nan y
    then none
    else if magnitude x + magnitude y == 0
    then some Ordering.eq
    else if sign x == 0
    then (if sign y == 0 then some (compare (magnitude x) (magnitude y)) else some Ordering.gt)
    else (if sign y == 0 then some Ordering.lt else some (compare (magnitude y) (magnitude x)))
