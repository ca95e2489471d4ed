-- ===== src/Memory/Cursor/Yielded.antt =====
-- What a round of a forward store cursor of crates/boa_idb_memory/src/cursor.rs leaves of the rows of
-- the range.
use indexed_db_boa.Base.{
  ℕ, ◌+◌, ◌<◌, ◌≡◌, ◌⊎◌, subst, true, false, List, Option, none, some, if◌then◌else◌, arith,
  Bool-cases, inl, inr, length,
}
use indexed_db_boa.Base.Order.{Ordering, cmp_slice}
use indexed_db_boa.Base.Lex.{bytes_ord, store_ord}
use indexed_db_boa.Base.Map.{same, same_iff}
use indexed_db_boa.Base.Sorted.{Above}
use indexed_db_boa.Key.Range.{EncodedRange, contains}
use indexed_db_boa.Memory.{record_ord}
use indexed_db_boa.Memory.Cursor.Consumed.{Rows, Slots, Consumed}
use indexed_db_boa.Memory.Cursor.Past.{row, merged-same}

-- A round that consumed a key of no row.
pub record Skipped (range : EncodedRange) (rows : Rows) (slots : Slots) (rows' : Rows)
    (slots' : Slots) : Type 0 where
  pub same_rows : (j : List ℕ) → row range rows slots j ≡ row range rows' slots' j
  pub fewer : length rows' + length slots' < length rows + length slots
  pub later : (j : List ℕ) → Above j rows → Above j slots → Above j rows' × Above j slots'

-- A round that ends at the least row left.
pub record Yielded (range : EncodedRange) (k v : List ℕ) (rows : Rows) (slots : Slots)
    (rows' : Rows) (slots' : Slots) : Type 0 where
  pub reads :
      (j : List ℕ)
      → row range rows slots j ≡ (if same k j then some v else row range rows' slots' j)
  pub over_rows : Above k rows'
  pub over_slots : Above k slots'
  pub fewer : length rows' + length slots' < length rows + length slots
  pub later :
      (j : List ℕ)
      → Above j rows
      → Above j slots
      → (cmp_slice j k ≡ Ordering.lt) × Above j rows' × Above j slots'

pub skipped :
    (range : EncodedRange) (k : List ℕ) (slot : Option (List ℕ)) (rows : Rows) (slots : Slots)
    (rows' : Rows) (slots' : Slots)
    → Consumed k slot rows slots rows' slots'
    → ((slot ≡ none) ⊎ (contains range k ≡ false))
    → Skipped range rows slots rows' slots'
skipped range k slot rows slots rows' slots' c h = record {
  same_rows = λ j. elim (Bool-cases (same k j)) [
    | inl e ↦ elim h [
      | inl n ↦
          ground (arith, e, n, c.reads j, merged-same k j rows' slots' c.over_rows c.over_slots e)
      | inr n ↦ ground (arith, e, subst (λ x. contains range x ≡ false) ((same_iff k j).0 e) n)
    ]
    | inr e ↦ ground (arith, e, c.reads j)
  ];
  fewer = c.fewer;
  later = λ j a b. let (l, x, y) = c.later j a b in (x, y);
}

pub yielded :
    (range : EncodedRange) (k v : List ℕ) (rows : Rows) (slots : Slots) (rows' : Rows)
    (slots' : Slots)
    → Consumed k (some v) rows slots rows' slots'
    → contains range k ≡ true
    → Yielded range k v rows slots rows' slots'
yielded range k v rows slots rows' slots' c h = record {
  reads = λ j. elim (Bool-cases (same k j)) [
    | inl e ↦
        ground (arith, e, c.reads j, subst (λ x. contains range x ≡ true) ((same_iff k j).0 e) h)
    | inr e ↦ ground (arith, e, c.reads j)
  ];
  over_rows = c.over_rows;
  over_slots = c.over_slots;
  fewer = c.fewer;
  later = c.later;
}
