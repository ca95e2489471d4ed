-- ===== src/Key/Range.antt =====
-- Encoded key ranges: crates/boa_idb_core/src/key/range.rs
pub mod Keys
use indexed_db_boa.Base.{Bool, true, false, Option, none, some, List, ℕ}
use indexed_db_boa.Base.Order.{Ordering, cmp_slice}

-- A bound is a key's bytes and whether the bound is open.
pub record EncodedRange : Type 0 where
  pub lower : Option (List ℕ × Bool)
  pub upper : Option (List ℕ × Bool)

unfoldable pub all : EncodedRange
all = record { lower = none; upper = none }

unfoldable pub only : List ℕ → EncodedRange
only key = record { lower = some (key, false); upper = some (key, false) }

unfoldable pub lower_bound : List ℕ → Bool → EncodedRange
lower_bound key open_end = record { lower = some (key, open_end); upper = none }

unfoldable pub upper_bound : List ℕ → Bool → EncodedRange
upper_bound key open_end = record { lower = none; upper = some (key, open_end) }

unfoldable pub bound : List ℕ → Bool → List ℕ → Bool → EncodedRange
bound lower lower_open upper upper_open = record {
  lower = some (lower, lower_open);
  upper = some (upper, upper_open);
}

-- The match on the lower bound; `rest` is what follows it in the source.
abbrev pub check_lower : Option (List ℕ × Bool) → List ℕ → Bool → Bool
check_lower none key rest = rest
check_lower (some (lower, open_end)) key rest = elim (cmp_slice key lower) [
  | Ordering.lt ↦ false
  | Ordering.eq ↦ elim open_end [ true ↦ false | false ↦ rest ]
  | Ordering.gt ↦ rest
]

abbrev pub check_upper : Option (List ℕ × Bool) → List ℕ → Bool → Bool
check_upper none key rest = rest
check_upper (some (upper, open_end)) key rest = elim (cmp_slice key upper) [
  | Ordering.gt ↦ false
  | Ordering.eq ↦ elim open_end [ true ↦ false | false ↦ rest ]
  | Ordering.lt ↦ rest
]

unfoldable pub contains : EncodedRange → List ℕ → Bool
contains range key = check_lower range.lower key (check_upper range.upper key true)
