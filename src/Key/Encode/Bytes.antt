-- ===== src/Key/Encode/Bytes.antt =====
-- The KEY-v1 bytes of a key with no buffer, and what `encode_key` does on every branch.
use Prim.Native.Nat.{bit_and, bit_or}
use indexed_db_boa.Base.{
  ◌/◌, ◌^◌, Bool, true, false, ℕ, ◌+◌, ◌-◌, ◌≡◌, refl, sym, ap, ◌∙◌, List, [], ◌∷◌, ◌++◌,
  append-nil, append_assoc, length, length-append, take-append, Result, ok, err, inl, inr, ltb,
  ◌==◌, if◌then◌else◌, Bool-cases, arith, Result-cases, ◌>>◌,
}
use indexed_db_boa.Key.{
  Key, Keys, number, date, string, binary, array, nil, cons, key_too_large, LimitConfig, validate,
  validate_recursive, validate_items,
}
use indexed_db_boa.Key.Encode.{
  as_u8, tag_number, tag_date, tag_string, tag_binary, tag_array, tag_array_terminator,
  encode_f64_orderable, encode_cesu8_unit, encode_units, escape_nulls, encode_key_internal,
  encode_items, encode_key, Written, encode_string_cesu8, encode_binary, push_terminator,
  then_write,
}

unfoldable pub unit_bytes : ℕ → List ℕ
unfolding encode_cesu8_unit
unit_bytes cu = encode_cesu8_unit cu []

unfoldable pub units_bytes : List ℕ → List ℕ
unfolding unit_bytes
units_bytes [] = []
units_bytes (u ∷ us) = unit_bytes u ++ units_bytes us

-- With the nulls escaped and the terminator.
unfoldable pub escaped : List ℕ → List ℕ
escaped [] = 0 ∷ 0 ∷ []
escaped (b ∷ bs) = if b == 0 then 0 ∷ 0xFF ∷ escaped bs else b ∷ escaped bs

unfoldable mutual
  pub bytes_of : Key → List ℕ
  bytes_of (number n) = tag_number ∷ encode_f64_orderable n
  bytes_of (date d) = tag_date ∷ encode_f64_orderable d
  bytes_of (string s) = tag_string ∷ escaped (units_bytes s)
  bytes_of (binary b) = tag_binary ∷ escaped b
  bytes_of (array arr) = tag_array ∷ bytes_of_items arr

  pub bytes_of_items : Keys → List ℕ
  bytes_of_items nil = tag_array_terminator ∷ []
  bytes_of_items (cons k ks) = bytes_of k ++ bytes_of_items ks

encode_cesu8_unit-append : (cu : ℕ) (out : List ℕ) → encode_cesu8_unit cu out ≡ out ++ unit_bytes cu
unfolding unit_bytes
encode_cesu8_unit-append cu out = ground (
  arith,
  append_assoc out (bit_or 0xC0 (as_u8 (cu / 2 ^ 6)) ∷ [])
      (bit_or 0x80 (as_u8 (bit_and cu 0x3F)) ∷ []),
  append_assoc out (bit_or 0xE0 (as_u8 (cu / 2 ^ 12)) ∷ [])
      (bit_or 0x80 (as_u8 (bit_and (cu / 2 ^ 6) 0x3F)) ∷ []),
  append_assoc out
      (bit_or 0xE0 (as_u8 (cu / 2 ^ 12)) ∷ bit_or 0x80 (as_u8 (bit_and (cu / 2 ^ 6) 0x3F)) ∷ [])
      (bit_or 0x80 (as_u8 (bit_and cu 0x3F)) ∷ []),
)

encode_units-append : (us out : List ℕ) → encode_units us out ≡ out ++ units_bytes us
unfolding encode_units units_bytes
encode_units-append [] out = sym (append-nil out)
encode_units-append (u ∷ us) out =
    encode_units-append us (encode_cesu8_unit u out)
    ∙ ap (λ t. t ++ units_bytes us) (encode_cesu8_unit-append u out)
    ∙ append_assoc out (unit_bytes u) (units_bytes us)

escape_nulls-escaped : (bs out : List ℕ) → push_terminator (escape_nulls bs out) ≡ out ++ escaped bs
unfolding escape_nulls escaped
escape_nulls-escaped [] out = append_assoc out (0 ∷ []) (0 ∷ [])
escape_nulls-escaped (b ∷ bs) out = elim (Bool-cases (b == 0)) [
  | inl e ↦ rw e (escape_nulls-escaped bs ((out ++ 0 ∷ []) ++ 0xFF ∷ []) ∙ simp append_assoc)
  | inr e ↦ rw e (escape_nulls-escaped bs (out ++ b ∷ []) ∙ simp append_assoc)
]

encode_string_cesu8-bytes :
    (s out : List ℕ) → encode_string_cesu8 s (out ++ tag_string ∷ []) ≡ out ++ bytes_of (string s)
unfolding encode_string_cesu8 bytes_of
encode_string_cesu8-bytes s out =
    escape_nulls-escaped (encode_units s []) (out ++ tag_string ∷ [])
    ∙ append_assoc out (tag_string ∷ []) (escaped (encode_units s []))
    ∙ ap (λ t. out ++ tag_string ∷ escaped t) (encode_units-append s [])

encode_binary-bytes :
    (b out : List ℕ) → encode_binary b (out ++ tag_binary ∷ []) ≡ out ++ bytes_of (binary b)
unfolding encode_binary bytes_of
encode_binary-bytes b out =
    escape_nulls-escaped b (out ++ tag_binary ∷ []) ∙ append_assoc out (tag_binary ∷ []) (escaped b)

-- A guarded result that is `ok` passed its guard.
pub guarded {ℓ} :
    {E : Type ℓ} (e : E) (r : Result E (Unit {0})) (t : Bool)
    → (if t then err e else r) ≡ ok tt
    → (t ≡ false) × (r ≡ ok tt)
guarded e r true h = cc
guarded e r false h = (refl, h)

pub first_ok {ℓ} :
    {E : Type ℓ} (r s : Result E (Unit {0})) → (r >> s) ≡ ok tt → (r ≡ ok tt) × (s ≡ ok tt)
first_ok (ok tt) s h = (refl, h)
first_ok (err e) s h = cc

mutual
  unfolding encode_key_internal encode_items validate_recursive validate_items bytes_of

  encode_key_internal-bytes :
      (k : Key) (out : List ℕ) (depth : ℕ) (limits : LimitConfig)
      → validate_recursive k depth limits ≡ ok tt
      → encode_key_internal k out depth limits ≡ (out ++ bytes_of k, ok tt)
  encode_key_internal-bytes (number n) out depth limits v =
      rw ((guarded _ _ (ltb limits.max_key_depth depth) v).0, append_assoc)
  encode_key_internal-bytes (date n) out depth limits v =
      rw ((guarded _ _ (ltb limits.max_key_depth depth) v).0, append_assoc)
  encode_key_internal-bytes (string s) out depth limits v =
      rw ((guarded _ _ (ltb limits.max_key_depth depth) v).0, encode_string_cesu8-bytes s out)
  encode_key_internal-bytes (binary b) out depth limits v =
      rw ((guarded _ _ (ltb limits.max_key_depth depth) v).0, encode_binary-bytes b out)
  encode_key_internal-bytes (array ks) out depth limits v = rw (
    (guarded _ _ (ltb limits.max_key_depth depth) v).0,
    encode_items-bytes ks (out ++ tag_array ∷ []) (depth + 1) limits
        (guarded _ _ (ltb limits.max_key_depth depth) v).1,
    append_assoc,
  )

  encode_items-bytes :
      (ks : Keys) (out : List ℕ) (depth : ℕ) (limits : LimitConfig)
      → validate_items ks depth limits ≡ ok tt
      → then_write
          (encode_items ks out depth limits)
          (λ out'. (out' ++ tag_array_terminator ∷ [], ok tt))
        ≡ (out ++ bytes_of_items ks, ok tt)
  encode_items-bytes nil out depth limits v = refl
  encode_items-bytes (cons k ks) out depth limits v = rw (
    encode_key_internal-bytes k out depth limits
        (first_ok (validate_recursive k depth limits) (validate_items ks depth limits) v).0,
    encode_items-bytes ks (out ++ bytes_of k) depth limits
        (first_ok (validate_recursive k depth limits) (validate_items ks depth limits) v).1,
    append_assoc,
  )

internal_whole :
    (k : Key) (out : List ℕ) (limits : LimitConfig)
    → validate k limits ≡ ok tt
    → encode_key_internal k out 0 limits ≡ (out ++ bytes_of k, ok tt)
unfolding validate
internal_whole k out limits v = encode_key_internal-bytes k out 0 limits v

added_length : (xs ys : List ℕ) → length (xs ++ ys) - length xs ≡ length ys
added_length xs ys = omega (arith, length-append xs ys)

-- The buffer and the result of `encode_key`, from the key's bytes: an invalid key and a key that is
-- too long leave the buffer as it was.
abbrev pub encoded : Key → List ℕ → LimitConfig → Written
encoded key out limits = elim (validate key limits) [
  | err e ↦ (out, err e)
  | ok _ ↦
      if ltb limits.max_key_len (length (bytes_of key))
      then (out, err (key_too_large limits.max_key_len (length (bytes_of key))))
      else (out ++ bytes_of key, ok tt)
]

-- `encode_key` behaves as `encoded` says: an invalid key, or one whose encoding is longer than the
-- limit, is an error that leaves the buffer as it was, and any other key's encoding is appended.
pub encode_key-encoded :
    (key : Key) (out : List ℕ) (limits : LimitConfig)
    → encode_key key out limits ≡ encoded key out limits
unfolding encode_key
encode_key-encoded key out limits = elim (Result-cases (validate key limits)) [
  | inl (_, e) ↦
      rw (e, encode_key, encoded, internal_whole key out limits e)
        (rw (added_length out (bytes_of key), take-append out (bytes_of key)))
  | inr (e, h) ↦ rw (h, encode_key, encoded)
]
