-- ===== src/Key/Decode.antt =====
-- The decoder of crates/boa_idb_core/src/key/encode.rs. The source indexes `bytes` from a position
-- that only grows; the model passes the bytes from that position on, and counts what is consumed.
pub mod Bounds
use Prim.Native.Nat.{bit_and, bit_or}
use indexed_db_boa.Base.{
  ℕ, zero, suc, ◌+◌, ◌-◌, ◌*◌, ◌^◌, Bool, true, false, not, ◌&&◌, List, [], ◌∷◌, ◌++◌, length, take,
  drop, Result, ok, err, ◌>>=◌, ltb, leb, ◌==◌, if◌then◌else◌,
}
use indexed_db_boa.Float.{is_nan}
use indexed_db_boa.Key.{
  Key, Keys, number, date, string, binary, array, nil, cons, KeyError, Fault, number_nan, date_nan,
  unknown_tag, string_end, string_lone_zero, string_unterminated, binary_end, binary_lone_zero,
  binary_unterminated, truncated_two, truncated_three, invalid_continuation, invalid_leading,
  invalid_value, invalid_encoding, max_depth_exceeded, unexpected_eof, out_of_fuel,
}
use indexed_db_boa.Key.Encode.{
  tag_number, tag_date, tag_string, tag_binary, tag_array, tag_array_terminator, not_u64,
}

abbrev pub max_key_decode_depth : ℕ
max_key_decode_depth = 32

-- `u64::from_be_bytes`, from the value of the bytes read so far.
unfoldable pub from_be_bytes : ℕ → List ℕ → ℕ
from_be_bytes acc [] = acc
from_be_bytes acc (b ∷ bs) = from_be_bytes (acc * 256 + b) bs

unfoldable pub decode_f64_orderable : List ℕ → ℕ
decode_f64_orderable bytes =
    let ord = from_be_bytes 0 bytes in
    if not (bit_and ord (2 ^ 63) == 0) then bit_and ord (not_u64 (2 ^ 63)) else not_u64 ord

-- The texts of the three errors that un-escaping can give.
pub record EscapeFaults : Type 0 where
  pub at_end : Fault
  pub lone_zero : Fault
  pub unterminated : Fault

abbrev pub string_faults : EscapeFaults
string_faults = record {
  at_end = string_end;
  lone_zero = string_lone_zero;
  unterminated = string_unterminated;
}

abbrev pub binary_faults : EscapeFaults
binary_faults = record {
  at_end = binary_end;
  lone_zero = binary_lone_zero;
  unterminated = binary_unterminated;
}

-- The un-escaping loop of `decode_string_cesu8` and of `decode_binary_escaped`, with `i - pos`.
unfoldable pub unescape : EscapeFaults → List ℕ → List ℕ → ℕ → Result KeyError (List ℕ × ℕ)
unescape faults [] out i = err (invalid_encoding faults.unterminated)
unescape faults (b ∷ []) out i = elim (b == 0) [
  | true ↦ err (invalid_encoding faults.at_end)
  | false ↦ unescape faults [] (out ++ b ∷ []) (i + 1)
]
unescape faults (b ∷ c ∷ rest) out i = elim (b == 0) [
  | true ↦ elim (c == 0) [
    | true ↦ ok (out, i + 2)
    | false ↦ elim (c == 0xFF) [
      | true ↦ unescape faults rest (out ++ 0x00 ∷ []) (i + 2)
      | false ↦ err (invalid_encoding faults.lone_zero)
    ]
  ]
  | false ↦ unescape faults (c ∷ rest) (out ++ b ∷ []) (i + 1)
]

-- The arms of the match on the leading byte.
pub data Lead : Type 0 where
  one two three bad : Lead

abbrev pub lead : ℕ → Lead
lead b =
    if leb b 0x7F
    then one
    else if leb 0xC0 b && leb b 0xDF
    then two
    else if leb 0xE0 b && leb b 0xEF
    then three
    else bad

-- `(0x80..=0xBF).contains(&b)`
abbrev pub is_continuation : ℕ → Bool
is_continuation b = leb 0x80 b && leb b 0xBF

abbrev pub two_byte_unit : ℕ → ℕ → ℕ
two_byte_unit b b2 = bit_or (bit_and b 0x1F * 2 ^ 6) (bit_and b2 0x3F)

abbrev pub three_byte_unit : ℕ → ℕ → ℕ → ℕ
three_byte_unit b b2 b3 =
    bit_or (bit_or (bit_and b 0x0F * 2 ^ 12) (bit_and b2 0x3F * 2 ^ 6)) (bit_and b3 0x3F)

-- The loop of `decode_string_cesu8` over the un-escaped bytes.
unfoldable pub decode_units : List ℕ → List ℕ → Result KeyError (List ℕ)
decode_units [] units = ok units
decode_units (b ∷ []) units = elim (lead b) [
  | one ↦ decode_units [] (units ++ b ∷ [])
  | two ↦ err (invalid_encoding truncated_two)
  | three ↦ err (invalid_encoding truncated_three)
  | bad ↦ err (invalid_encoding (invalid_leading b))
]
decode_units (b ∷ b2 ∷ []) units = elim (lead b) [
  | one ↦ decode_units (b2 ∷ []) (units ++ b ∷ [])
  | two ↦ elim (is_continuation b2) [
    | true ↦ decode_units [] (units ++ two_byte_unit b b2 ∷ [])
    | false ↦ err (invalid_encoding invalid_continuation)
  ]
  | three ↦ err (invalid_encoding truncated_three)
  | bad ↦ err (invalid_encoding (invalid_leading b))
]
decode_units (b ∷ b2 ∷ b3 ∷ rest) units = elim (lead b) [
  | one ↦ decode_units (b2 ∷ b3 ∷ rest) (units ++ b ∷ [])
  | two ↦ elim (is_continuation b2) [
    | true ↦ decode_units (b3 ∷ rest) (units ++ two_byte_unit b b2 ∷ [])
    | false ↦ err (invalid_encoding invalid_continuation)
  ]
  | three ↦ elim (is_continuation b2 && is_continuation b3) [
    | true ↦ decode_units rest (units ++ three_byte_unit b b2 b3 ∷ [])
    | false ↦ err (invalid_encoding invalid_continuation)
  ]
  | bad ↦ err (invalid_encoding (invalid_leading b))
]

unfoldable pub decode_string_cesu8 : List ℕ → Result KeyError (List ℕ × ℕ)
decode_string_cesu8 bytes = do
  (unescaped, consumed) ← unescape string_faults bytes [] 0
  units ← decode_units unescaped []
  ok (units, consumed)

unfoldable pub decode_binary_escaped : List ℕ → Result KeyError (List ℕ × ℕ)
decode_binary_escaped bytes = unescape binary_faults bytes [] 0

-- The arms for numbers and dates: the eight bytes behind the tag.
unfoldable pub decode_float : (ℕ → Key) → Fault → List ℕ → Result KeyError (Key × ℕ)
decode_float key fault bytes =
    if ltb (length bytes) 8
    then err unexpected_eof
    else (let val = decode_f64_orderable (take 8 bytes) in
        if is_nan val then err (invalid_value fault) else ok (key val, 9))

abbrev pub push_key : Keys → Key → Keys
push_key nil k = cons k nil
push_key (cons j ks) k = cons j (push_key ks k)

-- The loop over an array's elements; `decode` is `decode_key_internal` one level deeper. Each
-- element takes a byte at least, so the number of bytes is fuel enough.
unfoldable pub decode_elements :
    (List ℕ → Result KeyError (Key × ℕ)) → ℕ → List ℕ → Keys → ℕ → Result KeyError (Keys × ℕ)
decode_elements decode fuel [] elements offset = err unexpected_eof
decode_elements decode zero (b ∷ bytes) elements offset =
    if b == tag_array_terminator then ok (elements, offset + 1) else err out_of_fuel
decode_elements decode (suc fuel) (b ∷ bytes) elements offset = elim (b == tag_array_terminator) [
  | true ↦ ok (elements, offset + 1)
  | false ↦ elim (decode (b ∷ bytes)) [
    | ok (key, consumed) ↦
        decode_elements decode fuel (drop consumed (b ∷ bytes)) (push_key elements key)
          (offset + consumed)
    | err e ↦ err e
  ]
]

-- `levels` is 33 - depth, which is zero just when `depth > MAX_KEY_DECODE_DEPTH`.
unfoldable pub decode_key_internal : ℕ → List ℕ → Result KeyError (Key × ℕ)
decode_key_internal zero bytes = err (max_depth_exceeded max_key_decode_depth)
decode_key_internal (suc levels) [] = err unexpected_eof
decode_key_internal (suc levels) (tag ∷ bytes) =
    if tag == tag_number
    then decode_float number number_nan bytes
    else if tag == tag_date
    then decode_float date date_nan bytes
    else if tag == tag_string
    then (do (units, consumed) ← decode_string_cesu8 bytes; ok (string units, consumed + 1))
    else if tag == tag_binary
    then (do (data', consumed) ← decode_binary_escaped bytes; ok (binary data', consumed + 1))
    else if tag == tag_array
    then (do
      (elements, offset) ← decode_elements (decode_key_internal levels) (length bytes) bytes nil 1
      ok (array elements, offset))
    else err (invalid_encoding (unknown_tag tag))

unfoldable pub decode_key : List ℕ → Result KeyError (Key × ℕ)
decode_key [] = err unexpected_eof
decode_key (b ∷ bytes) = decode_key_internal (max_key_decode_depth + 1) (b ∷ bytes)
