-- ===== src/Key/Floats.antt =====
-- Decoding of the eight bytes that key/encode.rs writes for a number.
use indexed_db_boa.Base.{
  ℕ, zero, suc, ◌+◌, ◌*◌, ◌/◌, ◌%◌, ◌^◌, ◌<◌, ◌≡◌, refl, ◌∙◌, false, List, [], ◌∷◌, ◌++◌, length,
  length-append, take-append, ok, arith,
}
use indexed_db_boa.Base.Bits.{and_low, and_bit}
use indexed_db_boa.Float.{IsU64, is_nan}
use indexed_db_boa.Key.{Key, Fault}
use indexed_db_boa.Key.Compare.{normalise_zero}
use indexed_db_boa.Key.Encode.{be_bytes, orderable_bits, encode_f64_orderable}
use indexed_db_boa.Key.Decode.{from_be_bytes, decode_f64_orderable, decode_float}
use indexed_db_boa.Key.Words.{high_below, orderable_bits_lem, orderable_bits-IsU64}

from_be_bytes-append :
    (acc : ℕ) (xs : List ℕ) (b : ℕ)
    → from_be_bytes acc (xs ++ b ∷ []) ≡ from_be_bytes acc xs * 256 + b
unfolding from_be_bytes
from_be_bytes-append acc [] b = refl
from_be_bytes-append acc (x ∷ xs) b = from_be_bytes-append (acc * 256 + x) xs b

from_be_bytes-be_bytes : (n x : ℕ) → x < 256 ^ n → from_be_bytes 0 (be_bytes n x) ≡ x
unfolding be_bytes
from_be_bytes-be_bytes zero x h = unfold from_be_bytes in omega arith
from_be_bytes-be_bytes (suc n) x h =
    from_be_bytes-append 0 (be_bytes n (x / 256)) (x % 256)
    ∙ rw (from_be_bytes-be_bytes n (x / 256) (high_below n x h)) (omega arith)

length-be_bytes : (n x : ℕ) → length (be_bytes n x) ≡ n
unfolding be_bytes
length-be_bytes zero x = refl
length-be_bytes (suc n) x =
    omega (arith, length-append (be_bytes n (x / 256)) (x % 256 ∷ []), length-be_bytes n (x / 256))

decode_f64_orderable-encode :
    (b : ℕ) → IsU64 b → decode_f64_orderable (encode_f64_orderable b) ≡ normalise_zero b
unfolding decode_f64_orderable encode_f64_orderable
decode_f64_orderable-encode b h =
    rw (from_be_bytes-be_bytes 8 (orderable_bits b) (orderable_bits-IsU64 b h)) (
      ground
        (arith, orderable_bits_lem b, and_bit 63 (orderable_bits b), and_low 63 (orderable_bits b)))

pub length-encode_f64 : (b : ℕ) → length (encode_f64_orderable b) ≡ 8
unfolding encode_f64_orderable
length-encode_f64 b = length-be_bytes 8 (orderable_bits b)

pub decode_float-encode :
    (key : ℕ → Key) (fault : Fault) (b : ℕ) (rest : List ℕ)
    → IsU64 b
    → is_nan b ≡ false
    → decode_float key fault (encode_f64_orderable b ++ rest) ≡ ok (key (normalise_zero b), 9)
unfolding decode_float
decode_float-encode key fault b rest h n = ground (
  arith,
  length-append (encode_f64_orderable b) rest,
  length-encode_f64 b,
  rw (length-encode_f64 b) at (take-append (encode_f64_orderable b) rest),
  decode_f64_orderable-encode b h,
)
