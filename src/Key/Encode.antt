-- ===== src/Key/Encode.antt =====
-- The encoder of crates/boa_idb_core/src/key/encode.rs. A buffer `out` is passed in and returned.
pub mod Bytes
use Prim.Native.Nat.{bit_and, bit_or}
use indexed_db_boa.Base.{
  ℕ, zero, suc, ◌+◌, ◌-◌, ◌/◌, ◌%◌, ◌^◌, Bool, not, List, [], ◌∷◌, ◌++◌, length, Result, ok, err,
  ltb, leb, ◌==◌, if◌then◌else◌, take,
}
use indexed_db_boa.Key.{
  Key, Keys, number, date, string, binary, array, nil, cons, KeyError, key_too_large,
  max_depth_exceeded, LimitConfig, validate,
}
use indexed_db_boa.Key.Compare.{normalise_zero}

abbrev pub tag_number : ℕ
tag_number = 0x10

abbrev pub tag_date : ℕ
tag_date = 0x20

abbrev pub tag_string : ℕ
tag_string = 0x30

abbrev pub tag_binary : ℕ
tag_binary = 0x40

abbrev pub tag_array : ℕ
tag_array = 0x50

abbrev pub tag_array_terminator : ℕ
tag_array_terminator = 0x00

-- `!v` and `v as u8`
abbrev pub not_u64 : ℕ → ℕ
not_u64 v = 2 ^ 64 - 1 - v

abbrev pub as_u8 : ℕ → ℕ
as_u8 v = v % 256

-- `to_be_bytes`: the n lowest bytes, the highest first.
unfoldable pub be_bytes : ℕ → ℕ → List ℕ
be_bytes zero v = []
be_bytes (suc n) v = be_bytes n (v / 256) ++ (v % 256) ∷ []

unfoldable pub orderable_bits : ℕ → ℕ
orderable_bits val =
    let bits = normalise_zero val in
    if not (bit_and bits (2 ^ 63) == 0) then not_u64 bits else bit_or bits (2 ^ 63)

unfoldable pub encode_f64_orderable : ℕ → List ℕ
encode_f64_orderable val = be_bytes 8 (orderable_bits val)

unfoldable pub encode_cesu8_unit : ℕ → List ℕ → List ℕ
encode_cesu8_unit cu out =
    if cu == 0
    then out ++ 0 ∷ []
    else if leb cu 0x7F
    then out ++ as_u8 cu ∷ []
    else if leb cu 0x7FF
    then (out ++ bit_or 0xC0 (as_u8 (cu / 2 ^ 6)) ∷ [])
      ++ bit_or 0x80 (as_u8 (bit_and cu 0x3F)) ∷ []
    else ((out ++ bit_or 0xE0 (as_u8 (cu / 2 ^ 12)) ∷ [])
        ++ bit_or 0x80 (as_u8 (bit_and (cu / 2 ^ 6) 0x3F)) ∷ [])
      ++ bit_or 0x80 (as_u8 (bit_and cu 0x3F)) ∷ []

-- `for &unit in units { encode_cesu8_unit(unit, &mut cesu8_buf) }`
unfoldable pub encode_units : List ℕ → List ℕ → List ℕ
unfolding encode_cesu8_unit
encode_units [] out = out
encode_units (unit ∷ units) out = encode_units units (encode_cesu8_unit unit out)

-- The loop that both `encode_string_cesu8` and `encode_binary` run over their bytes.
unfoldable pub escape_nulls : List ℕ → List ℕ → List ℕ
escape_nulls [] out = out
escape_nulls (b ∷ bytes) out =
    escape_nulls bytes (if b == 0 then (out ++ 0 ∷ []) ++ 0xFF ∷ [] else out ++ b ∷ [])

abbrev pub push_terminator : List ℕ → List ℕ
push_terminator out = (out ++ 0 ∷ []) ++ 0 ∷ []

unfoldable pub encode_string_cesu8 : List ℕ → List ℕ → List ℕ
unfolding encode_units escape_nulls
encode_string_cesu8 units out = push_terminator (escape_nulls (encode_units units []) out)

unfoldable pub encode_binary : List ℕ → List ℕ → List ℕ
unfolding escape_nulls
encode_binary data' out = push_terminator (escape_nulls data' out)

-- What a call leaves in the buffer, with its result.
abbrev pub Written : Type 0
Written = List ℕ × Result KeyError (Unit {0})

-- `f(..)?;` and then the rest of the function.
abbrev pub then_write : Written → (List ℕ → Written) → Written
then_write (out, ok u) next = next out
then_write (out, err e) next = (out, err e)

unfoldable mutual
  pub encode_key_internal : Key → List ℕ → ℕ → LimitConfig → Written
  encode_key_internal (number n) out depth limits =
      if ltb limits.max_key_depth depth
      then (out, err (max_depth_exceeded limits.max_key_depth))
      else ((out ++ tag_number ∷ []) ++ encode_f64_orderable n, ok tt)
  encode_key_internal (date d) out depth limits =
      if ltb limits.max_key_depth depth
      then (out, err (max_depth_exceeded limits.max_key_depth))
      else ((out ++ tag_date ∷ []) ++ encode_f64_orderable d, ok tt)
  encode_key_internal (string s) out depth limits =
      if ltb limits.max_key_depth depth
      then (out, err (max_depth_exceeded limits.max_key_depth))
      else (encode_string_cesu8 s (out ++ tag_string ∷ []), ok tt)
  encode_key_internal (binary b) out depth limits =
      if ltb limits.max_key_depth depth
      then (out, err (max_depth_exceeded limits.max_key_depth))
      else (encode_binary b (out ++ tag_binary ∷ []), ok tt)
  encode_key_internal (array arr) out depth limits =
      if ltb limits.max_key_depth depth
      then (out, err (max_depth_exceeded limits.max_key_depth))
      else then_write (encode_items arr (out ++ tag_array ∷ []) (depth + 1) limits)
          (λ out'. (out' ++ tag_array_terminator ∷ [], ok tt))

  -- `for item in arr { encode_key_internal(item, out, depth + 1, limits)?; }`
  pub encode_items : Keys → List ℕ → ℕ → LimitConfig → Written
  encode_items nil out depth limits = (out, ok tt)
  encode_items (cons item rest) out depth limits =
      then_write (encode_key_internal item out depth limits)
        (λ out'. encode_items rest out' depth limits)

-- `out.truncate(start_len)` is `take`.
unfoldable pub encode_key : Key → List ℕ → LimitConfig → Written
encode_key key out limits = elim (validate key limits) [
  | err e ↦ (out, err e)
  | ok _ ↦
      let start_len = length out in
      then_write (encode_key_internal key out 0 limits) (λ out'.
        let added = length out' - start_len in
        if ltb limits.max_key_len added
        then (take start_len out', err (key_too_large limits.max_key_len added))
        else (out', ok tt))
]
