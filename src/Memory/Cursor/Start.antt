-- ===== src/Memory/Cursor/Start.antt =====
-- Where a seek lets a forward store cursor of crates/boa_idb_memory/src/cursor.rs start, and the
-- records it has left there.
use indexed_db_boa.Base.{
  ℕ, ◌+◌, ◌<◌, ◌≡◌, refl, sym, ap, ◌∙◌, subst, Bool, true, false, ◌&&◌, List, Option, none, some,
  if◌then◌else◌, arith, Bool-cases, inl, inr, All, length,
}
use indexed_db_boa.Base.Lex.{bytes_ord, store_ord}
use indexed_db_boa.Base.Map.{get}
use indexed_db_boa.Base.Sorted.{Sorted}
use indexed_db_boa.Key.Range.{contains}
use indexed_db_boa.Memory.{RecordKey, record_ord, StorageState, Pending, read_record}
use indexed_db_boa.Memory.Cursor.Kinds.{Bound, CursorSeek, on_store, MemoryCursor}
use indexed_db_boa.Memory.Cursor.Ranges.{above, entries_from}
use indexed_db_boa.Memory.Cursor.Store.{bound_at, record_start}
use indexed_db_boa.Memory.Cursor.Calls.{store_fuel}
use indexed_db_boa.Memory.Cursor.Suffix.{Remains, Remains-start, own-Sorted}
use indexed_db_boa.Memory.Cursor.From.{entries_from-Sorted, entries_from-above}
use indexed_db_boa.Memory.Cursor.Consumed.{Rows, Slots, merged}
use indexed_db_boa.Memory.Cursor.Forward.{Left}
use indexed_db_boa.Memory.Cursor.Past.{row}
use indexed_db_boa.Memory.Cursor.Bounds.{
  at_or_after, start_at, passes, start_at-passes, floor_of, start_bound,
}
use indexed_db_boa.Memory.Cursor.Entries.{
  All-map, All-map2, Sorted-get, own-All, length-own, length-entries_from, above-passes, left_of,
  left_of-get,
}

-- A forward store cursor that a seek has set and that has not advanced.
pub record Set (id : ℕ) (target : CursorSeek) (c : MemoryCursor) : Type 0 where
  pub is_forward : c.desc ≡ false
  pub is_open : c.exhausted ≡ false
  pub has_kind : c.kind ≡ on_store id
  pub no_committed : c.committed_record_pos ≡ none
  pub no_pending : c.pending_record_pos ≡ none
  pub has_floor : c.floor_record ≡ floor_of id target

set_start :
    (id : ℕ) (target : CursorSeek) (c : MemoryCursor) (pos : Option RecordKey)
    → Set id target c
    → pos ≡ none
    → record_start id pos c
      ≡ bound_at ((id, (start_at c.range target).0), (start_at c.range target).1)
set_start id target c pos s e =
    ap (λ x. record_start id x c) e ∙ start_bound id c target s.is_forward s.has_floor

module _ (state : StorageState) (p : Pending) (id : ℕ) (s1 : Sorted state.records)
    (s2 : Sorted p.records) (at : List ℕ × Bool) where
  reads_at :
      (e : List ℕ × List ℕ)
      → passes at e.0 ≡ true
      → get e.0 (left_of id at state.records s1) ≡ some e.1
      → (get (id, e.0) p.records ≡ get e.0 (left_of id at p.records s2))
        × (get (id, e.0) state.records ≡ some e.1)
  reads_at e h g = (
    ground (arith, left_of-get id at p.records s2 e.0),
    ground (arith, left_of-get id at state.records s1 e.0),
  )

  passes_left : All (λ (e : List ℕ × List ℕ). passes at e.0 ≡ true) (left_of id at state.records s1)
  passes_left =
      let b = bound_at ((id, at.0), at.1) in
      All-map (λ e h. sym (above-passes id at e.0) ∙ h) (left_of id at state.records s1)
        (own-All id (λ e. above b e.0 ≡ true) (entries_from b state.records)
          (entries_from-above b state.records s1))

  merged_at :
      (j : List ℕ)
      → merged (left_of id at state.records s1) (left_of id at p.records s2) j
        ≡ (if passes at j then read_record state p (id, j) else none)
  unfolding read_record
  merged_at j =
      ground (arith, left_of-get id at p.records s2 j, left_of-get id at state.records s1 j)

module _ (state : StorageState) (p : Pending) (id : ℕ) (target : CursorSeek) (c : MemoryCursor)
    (s1 : Sorted state.records) (s2 : Sorted p.records) (s : Set id target c) where
  abbrev pub rows_left : Rows
  rows_left = left_of id (start_at c.range target) state.records s1

  abbrev pub slots_left : Slots
  slots_left = left_of id (start_at c.range target) p.records s2

  pub set-Left : Left state p id c.range c.key_only c rows_left slots_left
  set-Left =
      let at = start_at c.range target in
      let b = bound_at ((id, at.0), at.1) in
      record {
        is_forward = s.is_forward;
        has_range = refl;
        has_key_only = refl;
        is_open = s.is_open;
        has_kind = s.has_kind;
        committed =
            subst (λ x. Remains id state.records x rows_left)
              (sym (set_start id target c c.committed_record_pos s s.no_committed))
              (Remains-start id state.records b s1);
        pending =
            subst (λ x. Remains id p.records x slots_left)
              (sym (set_start id target c c.pending_record_pos s s.no_pending))
              (Remains-start id p.records b s2);
        reads_left =
            All-map2 (reads_at state p id s1 s2 at) rows_left (passes_left state p id s1 s2 at) (
              Sorted-get rows_left (
                own-Sorted id (entries_from b state.records)
                  (entries_from-Sorted b state.records s1)));
      }

  pub set_row :
      (j : List ℕ)
      → row c.range rows_left slots_left j
        ≡ (if contains c.range j && at_or_after target j then read_record state p (id, j) else none)
  set_row j = elim (Bool-cases (contains c.range j)) [
    | inl h ↦ ground (
      arith,
      h,
      start_at-passes c.range target j h,
      merged_at state p id s1 s2 (start_at c.range target) j,
    )
    | inr h ↦ ground (arith, h)
  ]

  pub set_fewer : length rows_left + length slots_left < store_fuel state p
  unfolding store_fuel
  set_fewer =
      let at = start_at c.range target in
      let b : Bound RecordKey = bound_at ((id, at.0), at.1) in
      omega (
        arith,
        length-own id (entries_from b state.records),
        length-entries_from b state.records,
        length-own id (entries_from b p.records),
        length-entries_from b p.records,
      )
