-- ===== src/Key/Compare.antt =====
-- crates/boa_idb_core/src/key/compare.rs
use indexed_db_boa.Base.{ℕ, suc, none, some, Option, if◌then◌else◌}
use indexed_db_boa.Base.Order.{Ordering, compare, cmp_slice}
use indexed_db_boa.Float.{is_zero, partial_cmp}
use indexed_db_boa.Key.{Key, Keys, number, date, string, binary, array, nil, cons}

unfoldable pub type_order : Key → ℕ
type_order (number n) = 1
type_order (date d) = 2
type_order (string s) = 3
type_order (binary b) = 4
type_order (array arr) = 5

abbrev pub length_keys : Keys → ℕ
length_keys nil = 0
length_keys (cons k ks) = suc (length_keys ks)

-- `if *x == 0.0 { 0.0 } else { *x }`
abbrev pub normalise_zero : ℕ → ℕ
normalise_zero b = if is_zero b then 0 else b

abbrev pub or_equal : Option Ordering → Ordering
or_equal none = Ordering.eq
or_equal (some o) = o

unfoldable pub compare_numbers : ℕ → ℕ → Ordering
unfolding partial_cmp
compare_numbers x y = or_equal (partial_cmp (normalise_zero x) (normalise_zero y))

-- The keys of two types; the last arm of the source's match is the last clause.
unfoldable mutual
  pub compare_keys : Key → Key → Ordering
  compare_keys (number x) (number y) = compare_numbers x y
  compare_keys (date x) (date y) = compare_numbers x y
  compare_keys (string x) (string y) = cmp_slice x y
  compare_keys (binary x) (binary y) = cmp_slice x y
  compare_keys (array x) (array y) = compare_elements x y (compare (length_keys x) (length_keys y))
  compare_keys a b = compare (type_order a) (type_order b)

  -- The loop over the elements that both arrays have; `lengths` is `x.len().cmp(&y.len())`.
  pub compare_elements : Keys → Keys → Ordering → Ordering
  compare_elements (cons a as') (cons b bs) lengths = elim (compare_keys a b) [
    | Ordering.lt ↦ Ordering.lt
    | Ordering.eq ↦ compare_elements as' bs lengths
    | Ordering.gt ↦ Ordering.gt
  ]
  compare_elements xs ys lengths = lengths
