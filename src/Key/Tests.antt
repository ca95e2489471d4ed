-- ===== src/Key/Tests.antt =====
-- Runs of the key codec, and its theorems at concrete keys.
use indexed_db_boa.Base.{ℕ, ◌≡◌, refl, List, [], ◌∷◌, ◌++◌, false, true, ok, arith}
use indexed_db_boa.Base.Order.{Ordering, cmp_slice}
use indexed_db_boa.Key.{
  Key, number, string, array, nil, cons, default_limits, validate, validate_recursive,
}
use indexed_db_boa.Key.Compare.{compare_keys, type_order, compare_numbers}
use indexed_db_boa.Key.Encode.{
  encode_key, be_bytes, orderable_bits, encode_f64_orderable, encode_string_cesu8,
  encode_key_internal,
}
use indexed_db_boa.Key.Encode.Bytes.{encoded, encode_key-encoded}
use indexed_db_boa.Key.Decode.{
  decode_key, decode_key_internal, decode_elements, decode_float, decode_f64_orderable,
  from_be_bytes, decode_string_cesu8, unescape, decode_units,
}
use indexed_db_boa.Key.Decode.Bounds.{Sound, decode_key-Sound}
use indexed_db_boa.Key.Order.{encode_key-order, compare_keys-swap, compare_keys_trans}
use indexed_db_boa.Key.RoundTrip.{decode_key-encode_key}
use indexed_db_boa.Key.Canonical.{canonical}
use indexed_db_boa.Key.Range.{contains, bound}
use indexed_db_boa.Key.Range.Keys.{contains-bound}

-- -0.0, and the text "a" followed by a null.
abbrev minus_zero : Key
minus_zero = number 0x8000_0000_0000_0000

abbrev a_null : Key
a_null = string (0x61 ∷ 0 ∷ [])

abbrev pair : Key
pair = array (cons minus_zero (cons a_null nil))

abbrev pair_bytes : List ℕ
pair_bytes =
    0x50 ∷ 0x10 ∷ 0x80 ∷ 0 ∷ 0 ∷ 0 ∷ 0 ∷ 0 ∷ 0 ∷ 0 ∷ 0x30 ∷ 0x61 ∷ 0 ∷ 0xFF ∷ 0 ∷ 0 ∷ 0 ∷ []

abbrev text_bytes : List ℕ
text_bytes = 0x30 ∷ 0x61 ∷ 0 ∷ 0xFF ∷ 0 ∷ 0 ∷ []

encode_pair : encode_key pair [] default_limits ≡ (pair_bytes, ok tt)
unfolding encode_key encode_key_internal encode_f64_orderable orderable_bits encode_string_cesu8
    validate validate_recursive be_bytes
encode_pair = refl

encode_text : encode_key a_null [] default_limits ≡ (text_bytes, ok tt)
unfolding encode_key encode_key_internal encode_string_cesu8 validate validate_recursive
encode_text = refl

decode_pair : decode_key pair_bytes ≡ ok (canonical pair, 17)
unfolding decode_key decode_key_internal decode_elements decode_float decode_f64_orderable
    from_be_bytes decode_string_cesu8 unescape decode_units
decode_pair = refl

encode_key-encoded_example :
    encode_key pair (7 ∷ []) default_limits ≡ encoded pair (7 ∷ []) default_limits
encode_key-encoded_example = encode_key-encoded pair (7 ∷ []) default_limits

encode_key-order_example : cmp_slice text_bytes pair_bytes ≡ compare_keys a_null pair
encode_key-order_example =
    encode_key-order a_null pair default_limits text_bytes pair_bytes (omega arith) (omega arith)
      encode_text encode_pair

compare_keys-swap_example : compare_keys pair a_null ≡ Ordering.gt
unfolding compare_keys type_order
compare_keys-swap_example =
    compare_keys-swap a_null pair (omega arith) (omega arith) tt (refl, (tt, tt))

compare_keys_trans_example : compare_keys minus_zero pair ≡ Ordering.lt
unfolding compare_keys type_order
compare_keys_trans_example =
    compare_keys_trans minus_zero a_null pair (omega arith) (omega arith) (omega arith) refl tt
      (refl, (tt, tt)) refl refl

decode_key-encode_key_example : decode_key (pair_bytes ++ 9 ∷ []) ≡ ok (canonical pair, 17)
decode_key-encode_key_example =
    decode_key-encode_key pair default_limits pair_bytes (9 ∷ []) (omega arith) (omega arith)
      encode_pair

decode_key-Sound_example : Sound pair_bytes (decode_key pair_bytes)
decode_key-Sound_example = decode_key-Sound pair_bytes

contains-bound_example : contains (bound text_bytes true pair_bytes false) pair_bytes ≡ true
unfolding compare_keys type_order compare_numbers cmp_slice
contains-bound_example =
    contains-bound pair a_null pair default_limits pair_bytes text_bytes pair_bytes (omega arith)
      (omega arith) (omega arith) encode_pair encode_text encode_pair true false
