-- ===== src/Key/Order.antt =====
-- The byte order of KEY-v1 (key/encode.rs) is the key order of key/compare.rs.
use indexed_db_boa.Base.{
  ℕ, suc, ◌+◌, ◌*◌, ◌≡◌, ◌≤◌, refl, sym, ap, ◌∙◌, List, [], ◌∷◌, ◌++◌, append-nil, append_assoc,
  false, ok, ltb, arith,
}
use indexed_db_boa.Base.Order.{
  Ordering, compare, then_with, swap, cmp_slice, then_with_assoc, then_with_eq, cmp_slice-swap,
  cmp_slice_trans,
}
use indexed_db_boa.Float.{is_nan}
use indexed_db_boa.Key.{
  Key, Keys, number, date, string, binary, array, nil, cons, IsWellTyped, AllWellTyped, LimitConfig,
  validate, validate_recursive, validate_items,
}
use indexed_db_boa.Key.Compare.{type_order, compare_keys, compare_elements, length_keys}
use indexed_db_boa.Key.Encode.{encode_key}
use indexed_db_boa.Key.Encode.Bytes.{
  guarded, first_ok, units_bytes, bytes_of, bytes_of_items, encode_key-encoded,
}
use indexed_db_boa.Key.Words.{encode_f64_orderable-order, units_bytes-order, escaped-order}

-- No number in the key is a NaN.
abbrev mutual
  pub HasNoNan : Key → Type 0
  HasNoNan (number n) = is_nan n ≡ false
  HasNoNan (date d) = is_nan d ≡ false
  HasNoNan (string s) = Unit {0}
  HasNoNan (binary b) = Unit {0}
  HasNoNan (array arr) = AllNoNan arr

  pub AllNoNan : Keys → Type 0
  AllNoNan nil = Unit {0}
  AllNoNan (cons k ks) = HasNoNan k × AllNoNan ks

pub bytes_of-head : (k : Key) → (t : List ℕ) × (bytes_of k ≡ (16 * type_order k) ∷ t)
unfolding bytes_of type_order
bytes_of-head (number n) = (_, refl)
bytes_of-head (date n) = (_, refl)
bytes_of-head (string n) = (_, refl)
bytes_of-head (binary n) = (_, refl)
bytes_of-head (array n) = (_, refl)

pub type_order_pos : (k : Key) → 1 ≤ type_order k
unfolding type_order
type_order_pos (number n) = omega arith
type_order_pos (date n) = omega arith
type_order_pos (string n) = omega arith
type_order_pos (binary n) = omega arith
type_order_pos (array n) = omega arith

elim_then :
    (o rest : Ordering)
    → (elim o [ Ordering.lt ↦ Ordering.lt | Ordering.eq ↦ rest | Ordering.gt ↦ Ordering.gt ])
      ≡ then_with o rest
elim_then Ordering.lt rest = refl
elim_then Ordering.eq rest = refl
elim_then Ordering.gt rest = refl

compare-suc : (m n : ℕ) → compare (suc m) (suc n) ≡ compare m n
compare-suc m n = ground arith

compare_elements-cons :
    (a b : Key) (as' bs : Keys)
    → compare_elements
        (cons a as')
        (cons b bs)
        (compare (length_keys (cons a as')) (length_keys (cons b bs)))
      ≡ then_with
          (compare_keys a b)
          (compare_elements as' bs (compare (length_keys as') (length_keys bs)))
compare_elements-cons a b as' bs =
    rw (compare-suc (length_keys as') (length_keys bs))
      (unfold compare_elements in elim_then (compare_keys a b) _)

mutual
  unfolding compare_keys compare_elements bytes_of bytes_of_items cmp_slice type_order

  bytes_of-order :
      (a b : Key) (r s : List ℕ)
      → IsWellTyped a
      → IsWellTyped b
      → HasNoNan a
      → HasNoNan b
      → cmp_slice (bytes_of a ++ r) (bytes_of b ++ s) ≡ then_with (compare_keys a b) (cmp_slice r s)
  bytes_of-order (number x) (number y) r s ta tb na nb =
      encode_f64_orderable-order x y r s ta tb na nb
  bytes_of-order (date x) (date y) r s ta tb na nb = encode_f64_orderable-order x y r s ta tb na nb
  bytes_of-order (string x) (string y) r s ta tb na nb =
      escaped-order (units_bytes x) (units_bytes y) r s
      ∙ ap (λ o. then_with o (cmp_slice r s)) (units_bytes-order x y ta tb)
  bytes_of-order (binary x) (binary y) r s ta tb na nb = escaped-order x y r s
  bytes_of-order (array x) (array y) r s ta tb na nb = bytes_of_items-order x y r s ta tb na nb
  bytes_of-order a b r s ta tb na nb = refl

  bytes_of_items-order :
      (xs ys : Keys) (r s : List ℕ)
      → AllWellTyped xs
      → AllWellTyped ys
      → AllNoNan xs
      → AllNoNan ys
      → cmp_slice (bytes_of_items xs ++ r) (bytes_of_items ys ++ s)
        ≡ then_with
            (compare_elements xs ys (compare (length_keys xs) (length_keys ys)))
            (cmp_slice r s)
  bytes_of_items-order nil nil r s ta tb na nb = refl
  bytes_of_items-order nil (cons b bs) r s ta tb na nb =
      ground (arith, bytes_of-head b, type_order_pos b)
  bytes_of_items-order (cons a as') nil r s ta tb na nb =
      ground (arith, bytes_of-head a, type_order_pos a)
  bytes_of_items-order (cons a as') (cons b bs) r s ta tb na nb =
      rw
        (
          append_assoc (bytes_of a) (bytes_of_items as') r,
          append_assoc (bytes_of b) (bytes_of_items bs) s,
          bytes_of-order a b (bytes_of_items as' ++ r) (bytes_of_items bs ++ s) ta.0 tb.0 na.0 nb.0,
          bytes_of_items-order as' bs r s ta.1 tb.1 na.1 nb.1,
        )
        (sym (then_with_assoc (compare_keys a b) _ _)
          ∙ ap (λ o. then_with o (cmp_slice r s)) (sym (compare_elements-cons a b as' bs)))

mutual
  unfolding validate_recursive validate_items

  validate-HasNoNan :
      (k : Key) (depth : ℕ) (limits : LimitConfig)
      → validate_recursive k depth limits ≡ ok tt
      → HasNoNan k
  validate-HasNoNan (number n) depth limits h = ground arith
  validate-HasNoNan (date n) depth limits h = ground arith
  validate-HasNoNan (string s) depth limits h = tt
  validate-HasNoNan (binary b) depth limits h = tt
  validate-HasNoNan (array ks) depth limits h =
      validate_items-AllNoNan ks (depth + 1) limits
        (guarded _ _ (ltb limits.max_key_depth depth) h).1

  validate_items-AllNoNan :
      (ks : Keys) (depth : ℕ) (limits : LimitConfig)
      → validate_items ks depth limits ≡ ok tt
      → AllNoNan ks
  validate_items-AllNoNan nil depth limits h = tt
  validate_items-AllNoNan (cons k ks) depth limits h =
      let (h', t) =
        first_ok (validate_recursive k depth limits) (validate_items ks depth limits) h in
      (validate-HasNoNan k depth limits h', validate_items-AllNoNan ks depth limits t)

-- A successful `encode_key` into an empty buffer wrote the key's bytes, and the key is valid.
pub encode_key-inv :
    (k : Key) (out x : List ℕ) (limits : LimitConfig)
    → encode_key k out limits ≡ (x, ok tt)
    → (x ≡ out ++ bytes_of k) × (validate k limits ≡ ok tt) × HasNoNan k
encode_key-inv k out x limits h =
    let (e, v) = wrote in (e, v, unfold validate in validate-HasNoNan k 0 limits v)
  where
    wrote : (x ≡ out ++ bytes_of k) × (validate k limits ≡ ok tt)
    wrote = ground (arith, encode_key-encoded k out limits)

bytes_of-compare :
    (a b : Key)
    → IsWellTyped a
    → IsWellTyped b
    → HasNoNan a
    → HasNoNan b
    → cmp_slice (bytes_of a) (bytes_of b) ≡ compare_keys a b
bytes_of-compare a b ta tb na nb =
    let e : cmp_slice (bytes_of a ++ []) (bytes_of b ++ [])
        ≡ then_with (compare_keys a b) Ordering.eq =
      unfold cmp_slice in bytes_of-order a b [] [] ta tb na nb in
    rw (append-nil (bytes_of a), append-nil (bytes_of b), then_with_eq) at e

-- Byte order is key order: for two keys that `encode_key` accepts, comparing the encoded bytes
-- gives what `compare_keys` gives on the keys.
pub encode_key-order :
    (a b : Key) (limits : LimitConfig) (x y : List ℕ)
    → IsWellTyped a
    → IsWellTyped b
    → encode_key a [] limits ≡ (x, ok tt)
    → encode_key b [] limits ≡ (y, ok tt)
    → cmp_slice x y ≡ compare_keys a b
encode_key-order a b limits x y ta tb ea eb =
    let (ex, _, na) = encode_key-inv a [] x limits ea in
    let (ey, _, nb) = encode_key-inv b [] y limits eb in
    rw (ex, ey) (bytes_of-compare a b ta tb na nb)

-- On well-typed keys without NaN, swapping the arguments of `compare_keys` swaps the result.
pub compare_keys-swap :
    (a b : Key)
    → IsWellTyped a
    → IsWellTyped b
    → HasNoNan a
    → HasNoNan b
    → compare_keys b a ≡ swap (compare_keys a b)
compare_keys-swap a b ta tb na nb =
    rw (← bytes_of-compare a b ta tb na nb, ← bytes_of-compare b a tb ta nb na)
      (cmp_slice-swap (bytes_of a) (bytes_of b))

-- `compare_keys` is transitive below: on well-typed keys without NaN, of a first key below a second
-- and the second below a third, the first is below the third.
pub compare_keys_trans :
    (a b c : Key)
    → IsWellTyped a
    → IsWellTyped b
    → IsWellTyped c
    → HasNoNan a
    → HasNoNan b
    → HasNoNan c
    → compare_keys a b ≡ Ordering.lt
    → compare_keys b c ≡ Ordering.lt
    → compare_keys a c ≡ Ordering.lt
compare_keys_trans a b c ta tb tc na nb nc h k =
    sym (bytes_of-compare a c ta tc na nc)
    ∙ cmp_slice_trans (bytes_of a) (bytes_of b) (bytes_of c) (bytes_of-compare a b ta tb na nb ∙ h)
        (bytes_of-compare b c tb tc nb nc ∙ k)
