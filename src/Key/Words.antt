-- ===== src/Key/Words.antt =====
-- What the encoder of key/encode.rs writes for one number and for one code unit, in plain
-- arithmetic, and the order of these bytes.
use native.Mathlib.Nat.{pow-suc}
use indexed_db_boa.Base.{
  ℕ, zero, suc, ◌+◌, ◌-◌, ◌*◌, ◌/◌, ◌%◌, ◌^◌, ◌<◌, ◌≡◌, refl, ap, ◌∙◌, false, List, [], ◌∷◌, ◌++◌,
  append_assoc, All, ltb, ◌==◌, if◌then◌else◌, arith,
}
use indexed_db_boa.Base.Order.{compare, then_with, cmp_slice}
use indexed_db_boa.Base.Bits.{bit_or-shift, bit_or-shift_right, and_low, and_bit}
use indexed_db_boa.Float.{IsU64, is_nan, sign}
use indexed_db_boa.Key.{IsUnit}
use indexed_db_boa.Key.Compare.{normalise_zero, compare_numbers}
use indexed_db_boa.Key.Encode.{be_bytes, orderable_bits, encode_f64_orderable}
use indexed_db_boa.Key.Encode.Bytes.{unit_bytes, units_bytes, escaped}

pub high_below : (n x : ℕ) → x < 256 ^ suc n → x / 256 < 256 ^ n
high_below n x h = let h' : x < 256 ^ n * 256 = rw pow-suc at h in omega arith

be_bytes_step :
    (n x : ℕ) (r : List ℕ) → be_bytes (suc n) x ++ r ≡ be_bytes n (x / 256) ++ x % 256 ∷ r
unfolding be_bytes
be_bytes_step n x r = append_assoc (be_bytes n (x / 256)) (x % 256 ∷ []) r

pub be_bytes-order :
    (n x y : ℕ) (r s : List ℕ)
    → x < 256 ^ n
    → y < 256 ^ n
    → cmp_slice (be_bytes n x ++ r) (be_bytes n y ++ s) ≡ then_with (compare x y) (cmp_slice r s)
be_bytes-order zero x y r s hx hy = unfold be_bytes in ground arith
be_bytes-order (suc n) x y r s hx hy =
    rw
      (
        be_bytes_step n x r,
        be_bytes_step n y s,
        be_bytes-order n (x / 256) (y / 256) (x % 256 ∷ r) (y % 256 ∷ s) (high_below n x hx)
            (high_below n y hy),
      )
      (unfold cmp_slice in ground arith)

pub orderable_bits_lem :
    (b : ℕ)
    → IsU64 b
    → orderable_bits b ≡ (
        if sign (normalise_zero b) == 0
        then 2 ^ 63 + normalise_zero b
        else 2 ^ 64 - 1 - normalise_zero b)
unfolding orderable_bits
orderable_bits_lem b h =
    ground (arith, and_bit 63 (normalise_zero b), bit_or-shift_right 63 1 (normalise_zero b))

orderable_bits-order :
    (x y : ℕ)
    → IsU64 x
    → IsU64 y
    → is_nan x ≡ false
    → is_nan y ≡ false
    → compare (orderable_bits x) (orderable_bits y) ≡ compare_numbers x y
unfolding compare_numbers
orderable_bits-order x y hx hy nx ny = ground (arith, orderable_bits_lem x, orderable_bits_lem y)

-- The bytes of a code unit.
pub unit_bytes_lem :
    (u : ℕ)
    → IsUnit u
    → unit_bytes u ≡ (
        if ltb u 128
        then u ∷ []
        else if ltb u 2048
        then (192 + u / 64) ∷ (128 + u % 64) ∷ []
        else (224 + u / 4096) ∷ (128 + u / 64 % 64) ∷ (128 + u % 64) ∷ [])
unfolding unit_bytes
unit_bytes_lem u h = ground (
  arith,
  bit_or-shift 5 6 (u / 64),
  bit_or-shift 4 14 (u / 4096),
  bit_or-shift 6 2 (u % 64),
  bit_or-shift 6 2 (u / 64 % 64),
  and_low 6 u,
  and_low 6 (u / 64),
)

unit_bytes-order :
    (u v : ℕ) (r s : List ℕ)
    → IsUnit u
    → IsUnit v
    → cmp_slice (unit_bytes u ++ r) (unit_bytes v ++ s) ≡ then_with (compare u v) (cmp_slice r s)
unfolding cmp_slice
unit_bytes-order u v r s hu hv = ground (arith, unit_bytes_lem u, unit_bytes_lem v)

pub orderable_bits-IsU64 : (b : ℕ) → IsU64 b → IsU64 (orderable_bits b)
orderable_bits-IsU64 b h = ground (arith, orderable_bits_lem b)

pub encode_f64_orderable-order :
    (x y : ℕ) (r s : List ℕ)
    → IsU64 x
    → IsU64 y
    → is_nan x ≡ false
    → is_nan y ≡ false
    → cmp_slice (encode_f64_orderable x ++ r) (encode_f64_orderable y ++ s)
      ≡ then_with (compare_numbers x y) (cmp_slice r s)
unfolding encode_f64_orderable
encode_f64_orderable-order x y r s hx hy nx ny =
    be_bytes-order 8 _ _ r s (orderable_bits-IsU64 x hx) (orderable_bits-IsU64 y hy)
    ∙ ap (λ o. then_with o (cmp_slice r s)) (orderable_bits-order x y hx hy nx ny)

pub units_bytes-order :
    (us vs : List ℕ)
    → All IsUnit us
    → All IsUnit vs
    → cmp_slice (units_bytes us) (units_bytes vs) ≡ cmp_slice us vs
unfolding units_bytes cmp_slice
units_bytes-order [] [] hu hv = refl
units_bytes-order [] (v ∷ vs) hu hv = ground (arith, unit_bytes_lem v)
units_bytes-order (u ∷ us) [] hu hv = ground (arith, unit_bytes_lem u)
units_bytes-order (u ∷ us) (v ∷ vs) hu hv =
    unit_bytes-order u v (units_bytes us) (units_bytes vs) hu.0 hv.0
    ∙ ap (then_with (compare u v)) (units_bytes-order us vs hu.1 hv.1)

pub escaped-order :
    (xs ys r s : List ℕ)
    → cmp_slice (escaped xs ++ r) (escaped ys ++ s) ≡ then_with (cmp_slice xs ys) (cmp_slice r s)
unfolding escaped cmp_slice
escaped-order [] [] r s = ground arith
escaped-order [] (y ∷ ys) r s = ground arith
escaped-order (x ∷ xs) [] r s = ground arith
escaped-order (x ∷ xs) (y ∷ ys) r s = ground (arith, escaped-order xs ys r s)
