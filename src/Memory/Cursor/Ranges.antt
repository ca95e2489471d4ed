-- ===== src/Memory/Cursor/Ranges.antt =====
-- `BTreeMap::range` from one bound, as crates/boa_idb_memory/src/cursor.rs uses it, and the choice
-- between the next committed and the next pending entry.
use indexed_db_boa.Base.{ℕ, Bool, true, false, [], ◌∷◌, Option, none, some, if◌then◌else◌, ◌==◌}
use indexed_db_boa.Base.Map.{Ord, Map}
use indexed_db_boa.Base.Order.{Ordering}
use indexed_db_boa.Memory.Cursor.Kinds.{Bound, included, excluded, unbounded}

module _ {ℓ} {K : Type ℓ} ⦃o : Ord K⦄ where
  abbrev pub above : Bound K → K → Bool
  above unbounded k = true
  above (included a) k = elim (o.cmp a k) [
    | Ordering.lt ↦ true
    | Ordering.eq ↦ true
    | Ordering.gt ↦ false
  ]
  above (excluded a) k = elim (o.cmp a k) [
    | Ordering.lt ↦ true
    | Ordering.eq ↦ false
    | Ordering.gt ↦ false
  ]

  abbrev pub below : Bound K → K → Bool
  below unbounded k = true
  below (included a) k = elim (o.cmp k a) [
    | Ordering.lt ↦ true
    | Ordering.eq ↦ true
    | Ordering.gt ↦ false
  ]
  below (excluded a) k = elim (o.cmp k a) [
    | Ordering.lt ↦ true
    | Ordering.eq ↦ false
    | Ordering.gt ↦ false
  ]

module _ {ℓ κ} {K : Type ℓ} {V : Type κ} ⦃o : Ord K⦄ where
  -- `range((start, Unbounded))`
  abbrev pub entries_from : Bound K → Map K V → Map K V
  entries_from b [] = []
  entries_from b ((k, v) ∷ m) = if above b k then (k, v) ∷ m else entries_from b m

  -- `range((start, Unbounded)).next()`
  unfoldable pub first_from : Bound K → Map K V → Option (K × V)
  first_from b m = elim (entries_from b m) [ [] ↦ none | e ∷ rest ↦ some e ]

  -- `range((Unbounded, end)).next_back()`
  unfoldable pub last_to : Bound K → Map K V → Option (K × V)
  last_to b [] = none
  last_to b ((k, v) ∷ m) =
      if below b k then elim (last_to b m) [ some e ↦ some e | none ↦ some (k, v) ] else none

  -- The entry that the direction reaches next.
  abbrev pub next_entry : Bool → Bound K → Map K V → Option (K × V)
  next_entry desc b m = if desc then last_to b m else first_from b m

-- The entry found, unless it is another store's or another index's.
abbrev pub owned {ℓ κ} : {K : Type ℓ} {V : Type κ} → ℕ → Option ((ℕ × K) × V) → Option ((ℕ × K) × V)
owned id none = none
owned id (some ((sid, k), v)) = if sid == id then some ((sid, k), v) else none
