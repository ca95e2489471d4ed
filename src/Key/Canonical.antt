-- ===== src/Key/Canonical.antt =====
-- A key with its zeros positive, which is what key/encode.rs keeps of a key and what
-- key/compare.rs takes for equal.
use indexed_db_boa.Base.{ℕ, suc, ◌≡◌, refl, ap, ◌∙◌, arith}
use indexed_db_boa.Base.Order.{Ordering, compare, cmp_slice_refl}
use indexed_db_boa.Key.{Key, Keys, number, date, string, binary, array, nil, cons}
use indexed_db_boa.Key.Compare.{
  normalise_zero, compare_numbers, compare_keys, compare_elements, length_keys,
}

-- The key with every zero positive, which is what the encoding keeps.
abbrev mutual
  pub canonical : Key → Key
  canonical (number n) = number (normalise_zero n)
  canonical (date d) = date (normalise_zero d)
  canonical (string s) = string s
  canonical (binary b) = binary b
  canonical (array ks) = array (canonical_items ks)

  pub canonical_items : Keys → Keys
  canonical_items nil = nil
  canonical_items (cons k ks) = cons (canonical k) (canonical_items ks)

compare_numbers-normalise : (n : ℕ) → compare_numbers n (normalise_zero n) ≡ Ordering.eq
unfolding compare_numbers
compare_numbers-normalise n = ground arith

length-canonical_items : (ks : Keys) → length_keys (canonical_items ks) ≡ length_keys ks
length-canonical_items nil = refl
length-canonical_items (cons k ks) = ap suc (length-canonical_items ks)

same_length :
    (ks : Keys) → compare (length_keys ks) (length_keys (canonical_items ks)) ≡ Ordering.eq
same_length ks = ground (arith, length-canonical_items ks)

mutual
  unfolding compare_keys

  compare-canonical : (k : Key) → compare_keys k (canonical k) ≡ Ordering.eq
  compare-canonical (number n) = compare_numbers-normalise n
  compare-canonical (date n) = compare_numbers-normalise n
  compare-canonical (string s) = cmp_slice_refl s
  compare-canonical (binary b) = cmp_slice_refl b
  compare-canonical (array ks) =
      compare_elements-canonical ks (compare (length_keys ks) (length_keys (canonical_items ks)))
      ∙ same_length ks

  compare_elements-canonical :
      (ks : Keys) (o : Ordering) → compare_elements ks (canonical_items ks) o ≡ o
  compare_elements-canonical nil o = refl
  compare_elements-canonical (cons k ks) o =
      rw (compare-canonical k, compare_elements) (compare_elements-canonical ks o)

-- The key that comes back is equal to the key that went in, for `compare_keys`.
pub compare_keys-canonical : (k : Key) → compare_keys k (canonical k) ≡ Ordering.eq
compare_keys-canonical k = compare-canonical k
