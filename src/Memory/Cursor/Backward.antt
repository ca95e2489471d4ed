-- ===== src/Memory/Cursor/Backward.antt =====
-- The first seek of a backward store cursor of crates/boa_idb_memory/src/cursor.rs whose range has no
-- upper bound.
use indexed_db_boa.Base.{
  ℕ, ◌≡◌, refl, ap, Bool, true, false, List, [], ◌∷◌, ◌++◌, none, some, ok, ◌==◌, length, ◌+◌,
}
use indexed_db_boa.Base.Map.{Map}
use indexed_db_boa.Key.Range.{EncodedRange}
use indexed_db_boa.Memory.{RecordKey, record_ord, StorageState, no_pending}
use indexed_db_boa.Memory.Cursor.Kinds.{Direction, is_prev, unbounded, to_first, MemoryCursor}
use indexed_db_boa.Memory.Cursor.Ranges.{last_to}
use indexed_db_boa.Memory.Cursor.Store.{
  start_record_upper, record_start, next_committed_record, peek_pending_record, pick_record,
  repeat_round, return_round, finished, emit_record, store_round, advance_store,
}
use indexed_db_boa.Memory.Cursor.Calls.{
  open_cursor, open_store, store_fuel, returned, advance, rewound, set_floor, seek,
}

last_to-unbounded :
    {V : Type 0} (front : Map RecordKey V) (k : RecordKey) (v : V)
    → last_to unbounded (front ++ (k, v) ∷ []) ≡ some (k, v)
unfolding last_to
last_to-unbounded [] k v = refl
last_to-unbounded ((j, w) ∷ front) k v = rw (last_to-unbounded front k v) refl

module _ (state : StorageState) (id : ℕ) (range : EncodedRange) (key_only : Bool) (dir : Direction)
    (backward : is_prev dir ≡ true) (unlimited : range.upper ≡ none)
    (front : Map RecordKey (List ℕ)) (sid : ℕ) (k v : List ℕ)
    (last : state.records ≡ front ++ ((sid, k), v) ∷ []) (other : (sid == id) ≡ false) where
  opened : MemoryCursor
  opened = set_floor (rewound (open_store id range dir key_only)) to_first

  nothing_committed : next_committed_record state id opened ≡ none
  unfolding next_committed_record opened open_store open_cursor rewound set_floor record_start
      start_record_upper
  nothing_committed = rw (backward, unlimited, last, last_to-unbounded front (sid, k) v, other) refl

  nothing_pending : peek_pending_record no_pending id opened ≡ none
  unfolding peek_pending_record opened open_store open_cursor rewound set_floor record_start
      start_record_upper last_to
  nothing_pending = rw backward refl

  round_ends : store_round state no_pending id opened ≡ finished opened
  unfolding store_round pick_record emit_record
  round_ends = rw (nothing_committed, nothing_pending) refl

-- A backward store cursor whose range has no upper bound, on a state whose last record is another
-- store's and with nothing pending: a seek to the first record finds none, whatever records the store
-- has.
pub backward_misses :
    (state : StorageState) (id : ℕ) (range : EncodedRange) (key_only : Bool) (dir : Direction)
    (front : Map RecordKey (List ℕ)) (sid : ℕ) (k v : List ℕ)
    → is_prev dir ≡ true
    → range.upper ≡ none
    → state.records ≡ front ++ ((sid, k), v) ∷ []
    → (sid == id) ≡ false
    → (d : MemoryCursor) × (seek state no_pending (open_store id range dir key_only) to_first
        ≡ some (d, ok false))
unfolding seek advance advance_store store_fuel returned open_store open_cursor rewound set_floor
    opened
backward_misses state id range key_only dir front sid k v b u l o =
    let fuel = length state.records + 0 in
    (
      record (opened state id range key_only dir b u front sid k v l o) {
        exhausted = true;
        current = none;
      },
      ap
          (λ r. returned (elim r [
            | repeat_round d ↦ advance_store fuel state no_pending id d
            | return_round d found ↦ some (d, found)
          ]))
          (round_ends state id range key_only dir b u front sid k v l o),
    )
