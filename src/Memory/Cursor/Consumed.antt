-- ===== src/Memory/Cursor/Consumed.antt =====
-- The records left to a forward store cursor of crates/boa_idb_memory/src/cursor.rs, and what
-- consuming the least of them leaves.
use indexed_db_boa.Base.{
  ℕ, ◌+◌, ◌<◌, ◌≡◌, refl, ◌∙◌, true, List, [], ◌∷◌, Option, none, some, if◌then◌else◌, arith,
  Bool-cases, inl, inr, All, length,
}
use indexed_db_boa.Base.Order.{Ordering, cmp_slice}
use indexed_db_boa.Base.Lex.{bytes_ord, store_ord}
use indexed_db_boa.Base.Map.{Map, get, same, same_iff}
use indexed_db_boa.Base.Sorted.{Above, Above-absent}
use indexed_db_boa.Memory.{record_ord, StorageState, Pending}

abbrev pub Rows : Type 0
Rows = Map (List ℕ) (List ℕ)

abbrev pub Slots : Type 0
Slots = Map (List ℕ) (Option (List ℕ))

-- What the records left hold for a key, the pending ones over the committed ones.
abbrev pub merged : Rows → Slots → List ℕ → Option (List ℕ)
merged rows slots k = elim (get k slots) [ none ↦ get k rows | some slot ↦ slot ]

-- The key was the least one left, and this is what it held.
pub record Consumed (k : List ℕ) (slot : Option (List ℕ)) (rows : Rows) (slots : Slots)
    (rows' : Rows) (slots' : Slots) : Type 0 where
  pub reads :
      (j : List ℕ) → merged rows slots j ≡ (if same k j then slot else merged rows' slots' j)
  pub over_rows : Above k rows'
  pub over_slots : Above k slots'
  pub fewer : length rows' + length slots' < length rows + length slots
  pub later :
      (j : List ℕ)
      → Above j rows
      → Above j slots
      → (cmp_slice j k ≡ Ordering.lt) × Above j rows' × Above j slots'

pub least_row :
    (k v : List ℕ) (rows : Rows) (slots : Slots)
    → Above k rows
    → Above k slots
    → Consumed k (some v) ((k, v) ∷ rows) slots rows slots
unfolding get
least_row k v rows slots a b = record {
  reads = λ j. elim (Bool-cases (same k j)) [
    | inl e ↦ ground (arith, e, Above-absent k j slots b e)
    | inr e ↦ ground (arith, e)
  ];
  over_rows = a;
  over_slots = b;
  fewer = omega arith;
  later = λ j c d. (c.0, c.1, d);
}

pub least_slot :
    (k : List ℕ) (slot : Option (List ℕ)) (rows : Rows) (slots : Slots)
    → Above k rows
    → Above k slots
    → Consumed k slot rows ((k, slot) ∷ slots) rows slots
unfolding get
least_slot k slot rows slots a b = record {
  reads = λ j. ground arith;
  over_rows = a;
  over_slots = b;
  fewer = omega arith;
  later = λ j c d. (d.0, c, d.1);
}

pub least_both :
    (k v : List ℕ) (slot : Option (List ℕ)) (rows : Rows) (slots : Slots)
    → Above k rows
    → Above k slots
    → Consumed k slot ((k, v) ∷ rows) ((k, slot) ∷ slots) rows slots
unfolding get
least_both k v slot rows slots a b = record {
  reads = λ j. ground arith;
  over_rows = a;
  over_slots = b;
  fewer = omega arith;
  later = λ j c d. (c.0, c.1, d.1);
}

pub same_refl : (k : List ℕ) → same k k ≡ true
same_refl k = (same_iff k k).1 refl

-- The reads stay when the pending record before them all goes.
pub reads_after :
    (state : StorageState) (p : Pending) (id : ℕ) (k : List ℕ) (slot : Option (List ℕ))
    (slots : Slots) (rows : Rows)
    → Above k rows
    → All
        (λ (e : List ℕ × List ℕ).
          (get (id, e.0) p.records ≡ get e.0 ((k, slot) ∷ slots))
          × (get (id, e.0) state.records ≡ some e.1))
        rows
    → All
        (λ (e : List ℕ × List ℕ).
          (get (id, e.0) p.records ≡ get e.0 slots) × (get (id, e.0) state.records ≡ some e.1))
        rows
unfolding get
reads_after state p id k slot slots [] a h = tt
reads_after state p id k slot slots ((j, v) ∷ rows) a h =
    ((h.0.0 ∙ skip, h.0.1), reads_after state p id k slot slots rows a.1 h.1)
  where
    skip : get j ((k, slot) ∷ slots) ≡ get j slots
    skip = ground (arith, a.0)
