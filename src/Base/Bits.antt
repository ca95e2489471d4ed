-- ===== src/Base/Bits.antt =====
-- The native bit operations on masks and on operands whose digits do not overlap, at every width.
use Prim.Native.Nat.{
  ℕ, zero, suc, ◌+◌, ◌-◌, ◌*◌, ◌/◌, ◌%◌, ◌^◌, ◌≤◌, ◌<◌, min, max, bit_and, bit_or, digits,
  bit_and-bitwise, bit_or-bitwise,
}
use mathlib.Core.Path.{◌≡◌, refl, ap, ◌∙◌}
use native.Mathlib.Nat.{pow-suc, div-add-mod, mod-lt}
use native.Mathlib.Omega.{arith}

-- Fuel beyond the first operand changes nothing; `low` is what the operation does once that is 0.
module _ (low : ℕ → ℕ) (join : ℕ → ℕ → ℕ) where
  digits_spare :
      (fuel x y : ℕ) → x ≤ fuel → digits low join (suc fuel) x y ≡ digits low join fuel x y
  digits_spare zero zero y h = refl
  digits_spare zero (suc x) y h = absurd (omega arith)
  digits_spare (suc fuel) zero y h = refl
  digits_spare (suc fuel) (suc x) y h =
      ap (λ (t : ℕ). t * 2 + join (suc x % 2) (y % 2))
        (digits_spare fuel (suc x / 2) (y / 2) (omega arith))

  digits_more :
      (spare fuel total x y : ℕ)
      → x ≤ fuel
      → total ≡ spare + fuel
      → digits low join total x y ≡ digits low join fuel x y
  digits_more zero fuel total x y h e = ap (λ n. digits low join n x y) (omega (arith, e))
  digits_more (suc spare) fuel zero x y h e = absurd (omega (arith, e))
  digits_more (suc spare) fuel (suc total) x y h e =
      digits_spare total x y (omega (arith, e))
      ∙ digits_more spare fuel total x y h (omega (arith, e))

  digits_halved :
      (x y : ℕ) → digits low join x (suc x / 2) y ≡ digits low join (suc x / 2) (suc x / 2) y
  digits_halved x y =
      digits_more (x - suc x / 2) (suc x / 2) x (suc x / 2) y (omega arith) (omega arith)

pub zero-bit_and : (b : ℕ) → bit_and 0 b ≡ 0
zero-bit_and b = bit_and-bitwise 0 b

pub zero-bit_or : (b : ℕ) → bit_or 0 b ≡ b
zero-bit_or b = bit_or-bitwise 0 b

and_digit : (a b : ℕ) → bit_and a b ≡ bit_and (a / 2) (b / 2) * 2 + min (a % 2) (b % 2)
and_digit zero b = omega (arith, zero-bit_and b, zero-bit_and (b / 2))
and_digit (suc a) b = omega (
  arith,
  bit_and-bitwise (suc a) b,
  bit_and-bitwise (suc a / 2) (b / 2),
  digits_halved (λ b. zero) min a (b / 2),
)

or_digit : (a b : ℕ) → bit_or a b ≡ bit_or (a / 2) (b / 2) * 2 + max (a % 2) (b % 2)
or_digit zero b = omega (arith, zero-bit_or b, zero-bit_or (b / 2))
or_digit (suc a) b = omega (
  arith,
  bit_or-bitwise (suc a) b,
  bit_or-bitwise (suc a / 2) (b / 2),
  digits_halved (λ b. b) max a (b / 2),
)

bit_or-zero_below : (n a : ℕ) → a ≤ n → bit_or a 0 ≡ a
bit_or-zero_below n zero h = refl
bit_or-zero_below zero (suc a) h = absurd (omega arith)
bit_or-zero_below (suc n) (suc a) h =
    omega (arith, or_digit (suc a) 0, bit_or-zero_below n (suc a / 2) (omega arith))

bit_and-zero_below : (n a : ℕ) → a ≤ n → bit_and a 0 ≡ 0
bit_and-zero_below n zero h = refl
bit_and-zero_below zero (suc a) h = absurd (omega arith)
bit_and-zero_below (suc n) (suc a) h =
    omega (arith, and_digit (suc a) 0, bit_and-zero_below n (suc a / 2) (omega arith))

bit_and-zero : (a : ℕ) → bit_and a 0 ≡ 0
bit_and-zero a = bit_and-zero_below a a (omega arith)

double : (q k : ℕ) → q * 2 ^ suc k ≡ 2 * (q * 2 ^ k)
double q k = rw pow-suc (omega arith)

double_pow : (k : ℕ) → 2 ^ suc k ≡ 2 * 2 ^ k
double_pow k = rw pow-suc (omega arith)

-- The same, for operands given by their halves and lowest digits.
module _ (a b a' b' da db : ℕ) (ea : a ≡ 2 * a' + da) (eb : b ≡ 2 * b' + db) where
  or_halves : da < 2 → db < 2 → bit_or a b ≡ 2 * bit_or a' b' + max da db
  or_halves la lb = omega (
    arith,
    or_digit a b,
    ap (λ (t : ℕ). bit_or t (b / 2)) (let e : a / 2 ≡ a' = omega arith in e),
    ap (λ (t : ℕ). bit_or a' t) (let e : b / 2 ≡ b' = omega arith in e),
  )

  and_halves : da < 2 → db < 2 → bit_and a b ≡ 2 * bit_and a' b' + min da db
  and_halves la lb = omega (
    arith,
    and_digit a b,
    ap (λ (t : ℕ). bit_and t (b / 2)) (let e : a / 2 ≡ a' = omega arith in e),
    ap (λ (t : ℕ). bit_and a' t) (let e : b / 2 ≡ b' = omega arith in e),
  )

-- `(q << k) | r`, where r has k digits.
pub bit_or-shift : (k q r : ℕ) → r < 2 ^ k → bit_or (q * 2 ^ k) r ≡ q * 2 ^ k + r
bit_or-shift zero q zero h = omega (
  arith,
  bit_or-zero_below q q (omega arith),
  ap (λ (t : ℕ). bit_or t 0) (let e : q * 2 ^ 0 ≡ q = omega arith in e),
)
bit_or-shift zero q (suc r) h = absurd (omega arith)
bit_or-shift (suc k) q r h = omega (
  arith,
  or_halves (q * 2 ^ suc k) r (q * 2 ^ k) (r / 2) 0 (r % 2) (omega (arith, double q k))
      (omega arith),
  double q k,
  bit_or-shift k q (r / 2) (omega (arith, double_pow k)),
)

-- `r | (q << k)`
pub bit_or-shift_right : (k q r : ℕ) → r < 2 ^ k → bit_or r (q * 2 ^ k) ≡ q * 2 ^ k + r
bit_or-shift_right zero q zero h = omega (arith, zero-bit_or (q * 2 ^ 0))
bit_or-shift_right zero q (suc r) h = absurd (omega arith)
bit_or-shift_right (suc k) q r h = omega (
  arith,
  or_halves r (q * 2 ^ suc k) (r / 2) (q * 2 ^ k) (r % 2) 0 (omega arith)
      (omega (arith, double q k)),
  double q k,
  bit_or-shift_right k q (r / 2) (omega (arith, double_pow k)),
)

-- `a & (2^k - 1)` keeps the low k digits.
pub bit_and_mask : (k q r : ℕ) → r < 2 ^ k → bit_and (q * 2 ^ k + r) (2 ^ k - 1) ≡ r
bit_and_mask zero q zero h = bit_and-zero (q * 2 ^ 0 + 0)
bit_and_mask zero q (suc r) h = absurd (omega arith)
bit_and_mask (suc k) q r h = omega (
  arith,
  and_halves (q * 2 ^ suc k + r) (2 ^ suc k - 1) (q * 2 ^ k + r / 2) (2 ^ k - 1) (r % 2) 1
      (omega (arith, double q k)) (omega (arith, double_pow k)),
  bit_and_mask k q (r / 2) (omega (arith, double_pow k)),
)

-- `a & (1 << k)` keeps digit k.
pub bit_and-bit : (k q r : ℕ) → r < 2 ^ k → bit_and (q * 2 ^ k + r) (2 ^ k) ≡ q % 2 * 2 ^ k
bit_and-bit zero q zero h =
    omega (arith, and_digit (q * 2 ^ 0 + 0) 1, bit_and-zero ((q * 2 ^ 0 + 0) / 2))
bit_and-bit zero q (suc r) h = absurd (omega arith)
bit_and-bit (suc k) q r h = omega (
  arith,
  and_halves (q * 2 ^ suc k + r) (2 ^ suc k) (q * 2 ^ k + r / 2) (2 ^ k) (r % 2) 0
      (omega (arith, double q k)) (omega (arith, double_pow k)),
  double (q % 2) k,
  bit_and-bit k q (r / 2) (omega (arith, double_pow k)),
)

pow_pos : (k : ℕ) → 0 < 2 ^ k
pow_pos zero = omega arith
pow_pos (suc k) = omega (arith, double_pow k, pow_pos k)

pub and_low : (k a : ℕ) → bit_and a (2 ^ k - 1) ≡ a % 2 ^ k
and_low k a =
    let e : a / 2 ^ k * 2 ^ k + a % 2 ^ k ≡ a = omega (arith, div-add-mod a (2 ^ k)) in
    rw e at (bit_and_mask k (a / 2 ^ k) (a % 2 ^ k) (mod-lt a (pow_pos k)))

pub and_bit : (k a : ℕ) → bit_and a (2 ^ k) ≡ a / 2 ^ k % 2 * 2 ^ k
and_bit k a =
    let e : a / 2 ^ k * 2 ^ k + a % 2 ^ k ≡ a = omega (arith, div-add-mod a (2 ^ k)) in
    rw e at (bit_and-bit k (a / 2 ^ k) (a % 2 ^ k) (mod-lt a (pow_pos k)))
