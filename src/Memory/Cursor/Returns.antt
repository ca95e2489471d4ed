-- ===== src/Memory/Cursor/Returns.antt =====
-- The termination of the calls of a cursor of crates/boa_idb_memory/src/cursor.rs.
use indexed_db_boa.Base.{
  ℕ, zero, suc, ◌≡◌, refl, ◌∙◌, ap, Bool, true, false, some, Result, ok, err, if◌then◌else◌,
  Bool-cases, inl, inr,
}
use indexed_db_boa.Backend.{BackendError}
use indexed_db_boa.Memory.{StorageState, Pending}
use indexed_db_boa.Memory.Cursor.Kinds.{CursorSeek, CursorKind, on_store, on_index, MemoryCursor}
use indexed_db_boa.Memory.Cursor.Store.{advance_store}
use indexed_db_boa.Memory.Cursor.Index.{advance_index}
use indexed_db_boa.Memory.Cursor.Calls.{
  store_fuel, index_fuel, returned, advance, rewound, set_floor, seek, advance_times, step,
}
use indexed_db_boa.Memory.Cursor.EndStore.{advance_store_returns}
use indexed_db_boa.Memory.Cursor.EndIndex.{advance_index_returns}

module _ (state : StorageState) (p : Pending) where
  abbrev Outcome : Type 0
  Outcome = MemoryCursor × Result BackendError Bool

  advance_kind :
      (c : MemoryCursor) (kind : CursorKind)
      → (r : Outcome) × ((elim kind [
        | on_store store ↦ returned (advance_store (store_fuel state p) state p store c)
        | on_index store id unique ↦ advance_index (index_fuel state p) state p store id unique c
      ])
          ≡ some r)
  unfolding store_fuel index_fuel returned
  advance_kind c (on_store store) =
      let ((d, found), e) = advance_store_returns state p store c in ((d, ok found), ap returned e)
  advance_kind c (on_index store id unique) = advance_index_returns state p store id unique c

  advance_total : (c : MemoryCursor) → (r : Outcome) × (advance state p c ≡ some r)
  unfolding advance
  advance_total c = advance_kind c c.kind

  times_after :
      (count : ℕ) (c : MemoryCursor) (r : Outcome)
      → advance state p c ≡ some r
      → ((d : MemoryCursor) → (q : Outcome) × (advance_times state p count d ≡ some q))
      → (q : Outcome) × (advance_times state p (suc count) c ≡ some q)
  unfolding advance_times
  times_after count c (d, err e) h again = ((d, err e), rw (advance_times, h) refl)
  times_after count c (d, ok false) h again = ((d, ok false), rw (advance_times, h) refl)
  times_after count c (d, ok true) h again = ((again d).0, rw (advance_times, h) ((again d).1))

  times_total :
      (count : ℕ) (c : MemoryCursor) → (r : Outcome) × (advance_times state p count c ≡ some r)
  unfolding advance_times
  times_total zero c = ((c, ok true), refl)
  times_total (suc count) c =
      times_after count c (advance_total c).0 (advance_total c).1 (times_total count)

  step_total : (count : ℕ) (c : MemoryCursor) → (r : Outcome) × (step state p c count ≡ some r)
  unfolding step
  step_total count c = elim (Bool-cases c.exhausted) [
    | inl e ↦
        ((c, ok false), ap (λ b. if b then some (c, ok false) else advance_times state p count c) e)
    | inr e ↦ (
      (times_total count c).0,
      ap (λ b. if b then some (c, ok false) else advance_times state p count c) e
          ∙ (times_total count c).1,
    )
  ]

-- On any maps, for a store or an index, in either direction, unique or not, and however the cursor was
-- used before: a seek returns, and so does a step by any count; one round of the loop for each entry
-- of the two maps, and one more, is enough for every advance.
pub calls_return :
    (state : StorageState) (p : Pending) (c : MemoryCursor) (target : CursorSeek) (count : ℕ)
    → ((r : MemoryCursor × Result BackendError Bool) × (seek state p c target ≡ some r))
      × ((r : MemoryCursor × Result BackendError Bool) × (step state p c count ≡ some r))
unfolding seek
calls_return state p c target count =
    (advance_total state p (set_floor (rewound c) target), step_total state p count c)
