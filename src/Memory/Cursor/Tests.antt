-- ===== src/Memory/Cursor/Tests.antt =====
-- The cursor of the in-memory backend at a concrete state, and its theorems there.
use indexed_db_boa.Base.{
  ℕ, ◌≡◌, refl, Bool, true, false, ◌&&◌, List, [], ◌∷◌, Option, none, some, Result, ok,
  if◌then◌else◌,
}
use indexed_db_boa.Base.Map.{Map, get}
use indexed_db_boa.Base.Sorted.{Sorted}
use indexed_db_boa.Base.Lex.{bytes_ord}
use indexed_db_boa.Key.Range.{EncodedRange, contains}
use indexed_db_boa.Memory.{StorageState, Pending, no_pending, read_record}
use indexed_db_boa.Memory.Cursor.Kinds.{next, prev, prev_unique, to_first, to_key, MemoryCursor}
use indexed_db_boa.Memory.Cursor.Calls.{
  open_cursor, open_store, store_fuel, index_fuel, open_index, returned, advance, rewound,
  set_floor, seek, advance_times, step, current_key, current_value,
}
use indexed_db_boa.Memory.Cursor.Ranges.{first_from, last_to}
use indexed_db_boa.Memory.Cursor.Index.{
  start_index_upper, index_start, peek_committed_index, peek_pending_index, pick_committed_index,
  pick_pending_index, pick_index, committed_min, pending_min, smaller_min, group_min, emit_group,
  emit_in_range, emit_index, index_round, advance_index,
}
use indexed_db_boa.Memory.Cursor.Store.{
  range_lower, start_record_upper, start_record_lower, record_start, next_committed_record,
  peek_pending_record, pick_committed, pick_pending, pick_both, pick_record, past_upper,
  emit_record, store_round, advance_store,
}
use indexed_db_boa.Base.Order.{cmp_slice}
use indexed_db_boa.Memory.Cursor.Bounds.{at_or_after}
use indexed_db_boa.Memory.Cursor.Steps.{rows_from, walk, shown}
use indexed_db_boa.Backend.{BackendError}
use indexed_db_boa.Memory.Cursor.Returns.{calls_return}
use indexed_db_boa.Memory.Cursor.Walk.{walk_rows}
use indexed_db_boa.Memory.Cursor.Backward.{backward_misses}

-- Store 1 holds the keys 3, 5 and 7, store 2 the key 4; index 9 has two entries under 8.
abbrev two_stores : StorageState
two_stores = record {
  databases = [];
  records =
      ((1, 3 ∷ []), 30 ∷ [])
      ∷ ((1, 5 ∷ []), 50 ∷ [])
      ∷ ((1, 7 ∷ []), 70 ∷ [])
      ∷ ((2, 4 ∷ []), 40 ∷ [])
      ∷ [];
  index_entries = ((9, (8 ∷ [], 3 ∷ [])), tt) ∷ ((9, (8 ∷ [], 7 ∷ [])), tt) ∷ [];
  key_generators = [];
}

-- The transaction has deleted 5, replaced 7, and added 6 and 9.
abbrev changes : Pending
changes = record {
  records =
      ((1, 5 ∷ []), none)
      ∷ ((1, 6 ∷ []), some (60 ∷ []))
      ∷ ((1, 7 ∷ []), some (71 ∷ []))
      ∷ ((1, 9 ∷ []), some (90 ∷ []))
      ∷ [];
  index_entries = [];
  key_generators = [];
}

abbrev from_three : EncodedRange
from_three = record { lower = some (3 ∷ [], true); upper = some (9 ∷ [], true) }

abbrev whole : EncodedRange
whole = record { lower = none; upper = none }

walk-merges :
    walk two_stores changes (open_store 1 whole next false) to_first
    ≡ some (
        (3 ∷ [], some (30 ∷ []))
        ∷ (6 ∷ [], some (60 ∷ []))
        ∷ (7 ∷ [], some (71 ∷ []))
        ∷ (9 ∷ [], some (90 ∷ []))
        ∷ [])
unfolding walk rows_from store_fuel seek step advance advance_times advance_store returned rewound
    set_floor open_store open_cursor store_round next_committed_record peek_pending_record
    record_start start_record_lower range_lower first_from pick_record pick_committed pick_pending
    pick_both emit_record past_upper contains current_key current_value read_record get cmp_slice
walk-merges = refl

-- A backward walk of the last store, and a backward unique walk of the index.
walk_last :
    walk two_stores no_pending (open_store 2 whole prev true) to_first ≡ some ((4 ∷ [], none) ∷ [])
unfolding walk rows_from store_fuel seek step advance advance_times advance_store returned rewound
    set_floor open_store open_cursor store_round next_committed_record peek_pending_record
    record_start start_record_upper last_to pick_record pick_committed pick_pending pick_both
    emit_record past_upper contains current_key current_value read_record get cmp_slice
walk_last = refl

walk_groups :
    walk two_stores no_pending (open_index 1 9 whole prev_unique false) to_first
    ≡ some ((8 ∷ [], some (30 ∷ [])) ∷ [])
unfolding walk rows_from store_fuel index_fuel seek step advance advance_times advance_index
    returned rewound set_floor open_index open_cursor index_round peek_committed_index
    peek_pending_index index_start start_index_upper last_to pick_index pick_committed_index
    pick_pending_index emit_index emit_in_range emit_group group_min committed_min pending_min
    smaller_min past_upper contains current_key current_value read_record get cmp_slice
walk_groups = refl

walk_rows_example :
    (rows : Map (List ℕ) (Option (List ℕ))) × (walk two_stores changes
        (open_store 1 from_three next false)
        (to_key (4 ∷ []))
      ≡ some rows)
    × Sorted rows
    × ((j : List ℕ)
        → get j rows
          ≡ shown false (
              if contains from_three j && at_or_after (to_key (4 ∷ [])) j
              then read_record two_stores changes (1, j)
              else none))
unfolding open_store open_cursor cmp_slice
walk_rows_example =
    walk_rows two_stores changes 1 (open_store 1 from_three next false) (to_key (4 ∷ []))
      ((refl, (refl, (refl, tt))), ((refl, (refl, tt)), ((refl, tt), (tt, tt))))
      ((refl, (refl, (refl, tt))), ((refl, (refl, tt)), ((refl, tt), (tt, tt)))) refl refl

backward_misses_example :
    (d : MemoryCursor) × (seek two_stores no_pending (open_store 1 whole prev false) to_first
      ≡ some (d, ok false))
backward_misses_example =
    backward_misses two_stores 1 whole false prev
      (((1, 3 ∷ []), 30 ∷ []) ∷ ((1, 5 ∷ []), 50 ∷ []) ∷ ((1, 7 ∷ []), 70 ∷ []) ∷ []) 2 (4 ∷ [])
      (40 ∷ []) refl refl refl refl

calls_return_example :
    ((r : MemoryCursor × Result BackendError Bool) × (seek two_stores changes
          (open_index 1 9 whole prev_unique false)
          to_first
        ≡ some r))
    × ((r : MemoryCursor × Result BackendError Bool) × (step two_stores changes
            (open_index 1 9 whole prev_unique false)
            3
          ≡ some r))
calls_return_example =
    calls_return two_stores changes (open_index 1 9 whole prev_unique false) to_first 3
