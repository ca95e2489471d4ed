-- ===== src/Key/RoundTrip.antt =====
-- Decoding what key/encode.rs encoded gives the key back, up to the sign of zero.
use indexed_db_boa.Base.{
  ℕ, zero, suc, ◌+◌, ◌-◌, ◌*◌, ◌<◌, ◌≤◌, ◌≡◌, refl, ap, ◌∙◌, false, List, [], ◌∷◌, ◌++◌,
  append_assoc, length, length-append, drop, drop-append, Result, ok, ltb, arith,
}
use indexed_db_boa.Float.{is_nan}
use indexed_db_boa.Key.{
  Key, Keys, number, date, string, binary, array, nil, cons, Fault, number_nan, date_nan, check_nan,
  IsWellTyped, AllWellTyped, LimitConfig, validate, validate_recursive, validate_items, KeyError,
}
use indexed_db_boa.Key.Compare.{type_order}
use indexed_db_boa.Key.Encode.{tag_array_terminator, encode_key}
use indexed_db_boa.Key.Encode.Bytes.{escaped, bytes_of, bytes_of_items, guarded, first_ok}
use indexed_db_boa.Key.Decode.{
  decode_elements, push_key, decode_key_internal, max_key_decode_depth, decode_key,
  decode_binary_escaped, binary_faults,
}
use indexed_db_boa.Key.Canonical.{canonical, canonical_items}
use indexed_db_boa.Key.Floats.{decode_float-encode, length-encode_f64}
use indexed_db_boa.Key.Units.{unescape-escaped, decode_string_cesu8-escaped}
use indexed_db_boa.Key.Order.{encode_key-inv, bytes_of-head, type_order_pos}

append_keys : Keys → Keys → Keys
append_keys nil ys = ys
append_keys (cons k ks) ys = cons k (append_keys ks ys)

append_keys-nil : (ks : Keys) → append_keys ks nil ≡ ks
unfolding append_keys
append_keys-nil nil = refl
append_keys-nil (cons k ks) = ap (cons k) (append_keys-nil ks)

append_keys-push_key :
    (ks : Keys) (k : Key) (ys : Keys) → append_keys (push_key ks k) ys ≡ append_keys ks (cons k ys)
unfolding append_keys
append_keys-push_key nil k ys = refl
append_keys-push_key (cons j ks) k ys = ap (cons j) (append_keys-push_key ks k ys)

within_depth :
    (k : Key) (depth : ℕ) (limits : LimitConfig)
    → validate_recursive k depth limits ≡ ok tt
    → depth ≤ limits.max_key_depth
unfolding validate_recursive
within_depth (number n) depth limits h = ground arith
within_depth (date n) depth limits h = ground arith
within_depth (string s) depth limits h = ground arith
within_depth (binary b) depth limits h = ground arith
within_depth (array ks) depth limits h = ground arith

element_cons :
    (decode : List ℕ → Result KeyError (Key × ℕ)) (fuel b : ℕ) (t : List ℕ) (acc : Keys)
    (offset : ℕ) (key : Key) (n : ℕ)
    → decode (suc b ∷ t) ≡ ok (key, n)
    → decode_elements decode (suc fuel) (suc b ∷ t) acc offset
      ≡ decode_elements decode fuel (drop n (suc b ∷ t)) (push_key acc key) (offset + n)
unfolding decode_elements
element_cons decode fuel b t acc offset key n h = ground arith

elements_end :
    (decode : List ℕ → Result KeyError (Key × ℕ)) (fuel : ℕ) (rest : List ℕ) (acc : Keys)
    (offset : ℕ)
    → decode_elements decode fuel (tag_array_terminator ∷ rest) acc offset
      ≡ ok (append_keys acc nil, offset + 1)
unfolding decode_elements
elements_end decode zero rest acc offset = rw (append_keys-nil acc)
elements_end decode (suc fuel) rest acc offset = rw (append_keys-nil acc)

-- One round of the element loop.
element_step :
    (decode : List ℕ → Result KeyError (Key × ℕ)) (fuel b : ℕ) (xs t : List ℕ) (acc : Keys)
    (offset : ℕ) (key : Key) (n : ℕ)
    → xs ≡ suc b ∷ t
    → decode xs ≡ ok (key, n)
    → decode_elements decode (suc fuel) xs acc offset
      ≡ decode_elements decode fuel (drop n xs) (push_key acc key) (offset + n)
element_step decode fuel b xs t acc offset key n e h =
    rw e (element_cons decode fuel b t acc offset key n (rw e at h))

nonempty : (k : Key) (rest : List ℕ) → (b : ℕ) × (t : List ℕ) × (bytes_of k ++ rest ≡ suc b ∷ t)
nonempty k rest =
    let (t, e) = bytes_of-head k in
    (16 * type_order k - 1, t ++ rest, rw e (ground (arith, type_order_pos k)))

length_pos : (k : Key) → 1 ≤ length (bytes_of k)
length_pos k = rw ((bytes_of-head k).1) (omega arith)

length-items_pos : (ks : Keys) → 1 ≤ length (bytes_of_items ks)
length-items_pos nil = unfold bytes_of_items in omega arith
length-items_pos (cons k ks) =
    unfold bytes_of_items in
    omega (arith, length-append (bytes_of k) (bytes_of_items ks), length_pos k)

checked : (n : ℕ) (fault : Fault) → check_nan n fault ≡ ok tt → is_nan n ≡ false
checked n fault h = ground arith

decode_binary_escaped-escaped :
    (b rest : List ℕ) → decode_binary_escaped (escaped b ++ rest) ≡ ok (b, length (escaped b))
unfolding decode_binary_escaped
decode_binary_escaped-escaped b rest = unescape-escaped binary_faults b rest [] 0 ∙ ground arith

mutual
  unfolding validate_recursive validate_items bytes_of bytes_of_items decode_key_internal
      append_keys

  decode-bytes_of :
      (k : Key) (rest : List ℕ) (depth levels : ℕ) (limits : LimitConfig)
      → validate_recursive k depth limits ≡ ok tt
      → limits.max_key_depth < depth + levels
      → IsWellTyped k
      → decode_key_internal levels (bytes_of k ++ rest) ≡ ok (canonical k, length (bytes_of k))
  decode-bytes_of k rest depth zero limits v d t =
      absurd (omega (arith, within_depth k depth limits v))
  decode-bytes_of (number n) rest depth (suc levels) limits v d t =
      decode_float-encode number number_nan n rest t
        (checked n number_nan (guarded _ _ (ltb limits.max_key_depth depth) v).1)
      ∙ rw (length-encode_f64 n)
  decode-bytes_of (date n) rest depth (suc levels) limits v d t =
      decode_float-encode date date_nan n rest t
        (checked n date_nan (guarded _ _ (ltb limits.max_key_depth depth) v).1)
      ∙ rw (length-encode_f64 n)
  decode-bytes_of (string s) rest depth (suc levels) limits v d t =
      rw (decode_string_cesu8-escaped s rest t) (ground arith)
  decode-bytes_of (binary b) rest depth (suc levels) limits v d t =
      rw (decode_binary_escaped-escaped b rest) (ground arith)
  decode-bytes_of (array ks) rest depth (suc levels) limits v d t =
      rw
        (decode_elements-items ks rest (depth + 1) levels (length (bytes_of_items ks ++ rest)) nil 1
          limits (guarded _ _ (ltb limits.max_key_depth depth) v).1 (omega arith) t
          (omega (arith, length-append (bytes_of_items ks) rest)))
        (ground arith)

  decode_elements-items :
      (ks : Keys) (rest : List ℕ) (depth levels fuel : ℕ) (acc : Keys) (offset : ℕ)
      (limits : LimitConfig)
      → validate_items ks depth limits ≡ ok tt
      → limits.max_key_depth < depth + levels
      → AllWellTyped ks
      → length (bytes_of_items ks) ≤ suc fuel
      → decode_elements (decode_key_internal levels) fuel (bytes_of_items ks ++ rest) acc offset
        ≡ ok (append_keys acc (canonical_items ks), offset + length (bytes_of_items ks))
  decode_elements-items nil rest depth levels fuel acc offset limits v d t f =
      elements_end (decode_key_internal levels) fuel rest acc offset
  decode_elements-items (cons k ks) rest depth levels zero acc offset limits v d t f = absurd (
      omega
        (arith, length-append (bytes_of k) (bytes_of_items ks), length_pos k, length-items_pos ks))
  decode_elements-items (cons k ks) rest depth levels (suc fuel) acc offset limits v d t f =
      let (vk, vs) =
        first_ok (validate_recursive k depth limits) (validate_items ks depth limits) v in
      let (b, l, e) = nonempty k (bytes_of_items ks ++ rest) in
      rw (append_assoc (bytes_of k) (bytes_of_items ks) rest) (
        element_step (decode_key_internal levels) fuel b _ l acc offset (canonical k)
          (length (bytes_of k)) e
          (decode-bytes_of k (bytes_of_items ks ++ rest) depth levels limits vk d t.0)
        ∙ rw
            (
              drop-append (bytes_of k) (bytes_of_items ks ++ rest),
              decode_elements-items ks rest depth levels fuel (push_key acc (canonical k))
                  (offset + length (bytes_of k)) limits vs d t.1
                  (omega (arith, length-append (bytes_of k) (bytes_of_items ks), length_pos k)),
              append_keys-push_key acc (canonical k) (canonical_items ks),
            )
            (ground (arith, length-append (bytes_of k) (bytes_of_items ks))))

decode_key-cons :
    (xs : List ℕ) (b : ℕ) (t : List ℕ)
    → xs ≡ b ∷ t
    → decode_key xs ≡ decode_key_internal (max_key_decode_depth + 1) xs
unfolding decode_key
decode_key-cons xs b t e = rw e

-- Round trip: the bytes that `encode_key` appends for a key decode, whatever follows them, to that
-- key with its zeros positive, and the decoder consumes exactly those bytes. The encoder's depth
-- limit is at most the decoder's, as it is by default.
pub decode_key-encode_key :
    (k : Key) (limits : LimitConfig) (x rest : List ℕ)
    → IsWellTyped k
    → limits.max_key_depth ≤ max_key_decode_depth
    → encode_key k [] limits ≡ (x, ok tt)
    → decode_key (x ++ rest) ≡ ok (canonical k, length x)
decode_key-encode_key k limits x rest t d h =
    let (e, v, _) = encode_key-inv k [] x limits h in
    let (b, l, c) = nonempty k rest in
    rw e (
      decode_key-cons (bytes_of k ++ rest) (suc b) l c
      ∙ decode-bytes_of k rest 0 (max_key_decode_depth + 1) limits (unfold validate in v)
          (omega arith) t)
