-- ===== src/Key/Units.antt =====
-- The string decoder of key/encode.rs undoes the string encoder, unit by unit.
use Prim.Native.Nat.{bit_and, bit_or}
use indexed_db_boa.Base.{
  ℕ, ◌+◌, ◌*◌, ◌/◌, ◌%◌, ◌^◌, ◌<◌, ◌≤◌, ◌≡◌, refl, ap, ◌∙◌, false, Bool-cases, inl, inr, List, [],
  ◌∷◌, ◌++◌, append-nil, append_assoc, All, length, ok, ◌==◌, arith,
}
use indexed_db_boa.Base.Bits.{bit_or-shift, and_low}
use indexed_db_boa.Key.{IsUnit}
use indexed_db_boa.Key.Decode.{
  decode_units, two_byte_unit, three_byte_unit, unescape, EscapeFaults, decode_string_cesu8,
  string_faults,
}
use indexed_db_boa.Key.Encode.Bytes.{unit_bytes, units_bytes, escaped}
use indexed_db_boa.Key.Words.{unit_bytes_lem}

-- The six bits of a continuation byte.
low_six : (r : ℕ) → r < 64 → bit_and (128 + r) 0x3F ≡ r
low_six r h = omega (arith, and_low 6 (128 + r))

two_byte_unit_lem : (u : ℕ) → u < 2048 → two_byte_unit (192 + u / 64) (128 + u % 64) ≡ u
two_byte_unit_lem u h =
    let top : bit_and (192 + u / 64) 0x1F ≡ u / 64 = omega (arith, and_low 5 (192 + u / 64)) in
    rw (top, low_six (u % 64) (omega arith))
      (bit_or-shift 6 (u / 64) (u % 64) (omega arith) ∙ omega arith)

three_byte_unit_lem :
    (u : ℕ) → IsUnit u → three_byte_unit (224 + u / 4096) (128 + u / 64 % 64) (128 + u % 64) ≡ u
three_byte_unit_lem u h =
    let top : bit_and (224 + u / 4096) 0x0F ≡ u / 4096 =
      omega (arith, and_low 4 (224 + u / 4096)) in
    let low : u / 64 % 64 < 64 = omega arith in
    let high : bit_or (u / 4096 * 2 ^ 12) (u / 64 % 64 * 2 ^ 6) ≡ u / 64 * 2 ^ 6 =
      bit_or-shift 12 (u / 4096) (u / 64 % 64 * 2 ^ 6) (omega arith) ∙ omega arith in
    rw (top, low_six (u / 64 % 64) low, low_six (u % 64) (omega arith), high)
      (bit_or-shift 6 (u / 64) (u % 64) (omega arith) ∙ omega arith)

one_byte :
    (u : ℕ) (rest units : List ℕ)
    → u < 128
    → decode_units (u ∷ rest) units ≡ decode_units rest (units ++ u ∷ [])
unfolding decode_units
one_byte u [] units h = ground arith
one_byte u (a ∷ []) units h = ground arith
one_byte u (a ∷ b ∷ rest) units h = ground arith

two_bytes :
    (u : ℕ) (rest units : List ℕ)
    → 128 ≤ u
    → u < 2048
    → decode_units ((192 + u / 64) ∷ (128 + u % 64) ∷ rest) units
      ≡ decode_units rest (units ++ u ∷ [])
unfolding decode_units
two_bytes u [] units l h = ground (arith, two_byte_unit_lem u)
two_bytes u (a ∷ rest) units l h = ground (arith, two_byte_unit_lem u)

three_bytes :
    (u : ℕ) (rest units : List ℕ)
    → 2048 ≤ u
    → IsUnit u
    → decode_units ((224 + u / 4096) ∷ (128 + u / 64 % 64) ∷ (128 + u % 64) ∷ rest) units
      ≡ decode_units rest (units ++ u ∷ [])
unfolding decode_units
three_bytes u rest units l h = ground (arith, three_byte_unit_lem u)

decode_units-unit :
    (u : ℕ) (rest units : List ℕ)
    → IsUnit u
    → decode_units (unit_bytes u ++ rest) units ≡ decode_units rest (units ++ u ∷ [])
decode_units-unit u rest units h = ground (
  arith,
  unit_bytes_lem u,
  one_byte u rest units,
  two_bytes u rest units,
  three_bytes u rest units,
)

decode_units-units_bytes :
    (us units : List ℕ) → All IsUnit us → decode_units (units_bytes us) units ≡ ok (units ++ us)
unfolding units_bytes
decode_units-units_bytes [] units h = unfold decode_units in rw append-nil
decode_units-units_bytes (u ∷ us) units h =
    decode_units-unit u (units_bytes us) units h.0
    ∙ decode_units-units_bytes us (units ++ u ∷ []) h.1
    ∙ ap ok (append_assoc units (u ∷ []) us)

escaped_step :
    (faults : EscapeFaults) (bs out : List ℕ) (i : ℕ)
    → unescape faults (0 ∷ 0xFF ∷ bs) out i ≡ unescape faults bs (out ++ 0 ∷ []) (i + 2)
unfolding unescape
escaped_step faults bs out i = refl

plain_step :
    (faults : EscapeFaults) (b : ℕ) (bs out : List ℕ) (i : ℕ)
    → (b == 0) ≡ false
    → unescape faults (b ∷ bs) out i ≡ unescape faults bs (out ++ b ∷ []) (i + 1)
unfolding unescape
plain_step faults b [] out i h = rw (h, unescape)
plain_step faults b (c ∷ bs) out i h = rw (h, unescape)

-- Un-escaping reads up to the terminator, and counts the bytes.
pub unescape-escaped :
    (faults : EscapeFaults) (bs rest out : List ℕ) (i : ℕ)
    → unescape faults (escaped bs ++ rest) out i ≡ ok (out ++ bs, i + length (escaped bs))
unfolding escaped
unescape-escaped faults [] rest out i = unfold unescape escaped in rw append-nil
unescape-escaped faults (b ∷ bs) rest out i = elim (Bool-cases (b == 0)) [
  | inl e ↦
      rw
        (
          e,
          escaped,
          escaped_step faults (escaped bs ++ rest) out i,
          unescape-escaped faults bs rest (out ++ 0 ∷ []) (i + 2),
          append_assoc out (0 ∷ []) bs,
        )
        (ground arith)
  | inr e ↦
      rw
        (
          e,
          escaped,
          plain_step faults b (escaped bs ++ rest) out i e,
          unescape-escaped faults bs rest (out ++ b ∷ []) (i + 1),
          append_assoc out (b ∷ []) bs,
        )
        (ground arith)
]

pub decode_string_cesu8-escaped :
    (us rest : List ℕ)
    → All IsUnit us
    → decode_string_cesu8 (escaped (units_bytes us) ++ rest)
      ≡ ok (us, length (escaped (units_bytes us)))
unfolding decode_string_cesu8
decode_string_cesu8-escaped us rest h =
    rw (unescape-escaped string_faults (units_bytes us) rest [] 0, decode_units-units_bytes us [] h)
      (ground arith)
