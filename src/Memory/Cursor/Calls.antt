-- ===== src/Memory/Cursor/Calls.antt =====
-- The calls of the cursor of crates/boa_idb_memory/src/cursor.rs, and the `scan` and `count` of
-- crates/boa_idb_memory/src/txn.rs.
use indexed_db_boa.Base.{
  ℕ, zero, suc, ◌+◌, Bool, true, false, List, [], Option, none, some, Result, ok, err,
  if◌then◌else◌, length,
}
use indexed_db_boa.Base.Lex.{bytes_ord, store_ord}
use indexed_db_boa.Backend.{SourceRef, store_source, index_source, BackendError}
use indexed_db_boa.Key.Range.{EncodedRange}
use indexed_db_boa.Memory.{record_ord, index_ord, StorageState, Pending, MemoryTxn, check_scope}
use indexed_db_boa.Memory.Cursor.Kinds.{
  Direction, is_unique, is_prev, CursorSeek, to_first, to_key, to_key_and_primary_key, CursorKind,
  on_store, on_index, MemoryCursor, CursorEntry,
}
use indexed_db_boa.Memory.Cursor.Store.{advance_store}
use indexed_db_boa.Memory.Cursor.Index.{advance_index}

unfoldable pub open_cursor : CursorKind → EncodedRange → Direction → Bool → MemoryCursor
open_cursor kind range dir key_only = record {
  kind = kind;
  range = range;
  desc = is_prev dir;
  key_only = key_only;
  committed_record_pos = none;
  pending_record_pos = none;
  committed_index_pos = none;
  pending_index_pos = none;
  floor_record = none;
  floor_index = none;
  last_index_key = none;
  current = none;
  exhausted = true;
}

unfoldable pub open_store : ℕ → EncodedRange → Direction → Bool → MemoryCursor
open_store store range dir key_only = open_cursor (on_store store) range dir key_only

unfoldable pub open_index : ℕ → ℕ → EncodedRange → Direction → Bool → MemoryCursor
open_index store id range dir key_only =
    open_cursor (on_index store id (is_unique dir)) range dir key_only

unfoldable pub scan :
    MemoryTxn → SourceRef → EncodedRange → Direction → Bool → Result BackendError MemoryCursor
scan t (store_source store) range dir key_only = elim (check_scope t store) [
  | err e ↦ err e
  | ok u ↦ ok (open_store store range dir key_only)
]
scan t (index_source store id) range dir key_only = elim (check_scope t store) [
  | err e ↦ err e
  | ok u ↦ ok (open_index store id range dir key_only)
]

-- A loop's fuel: one more than the entries of its two maps.
unfoldable pub store_fuel : StorageState → Pending → ℕ
store_fuel state p = suc (length state.records + length p.records)

unfoldable pub index_fuel : StorageState → Pending → ℕ
index_fuel state p = suc (length state.index_entries + length p.index_entries)

unfoldable pub returned :
    Option (MemoryCursor × Bool) → Option (MemoryCursor × Result BackendError Bool)
returned none = none
returned (some (c, found)) = some (c, ok found)

unfoldable pub advance :
    StorageState → Pending → MemoryCursor → Option (MemoryCursor × Result BackendError Bool)
advance state p c = elim c.kind [
  | on_store store ↦ returned (advance_store (store_fuel state p) state p store c)
  | on_index store id unique ↦ advance_index (index_fuel state p) state p store id unique c
]

unfoldable pub rewound : MemoryCursor → MemoryCursor
rewound c = record c {
  committed_record_pos = none;
  pending_record_pos = none;
  committed_index_pos = none;
  pending_index_pos = none;
  floor_record = none;
  floor_index = none;
  last_index_key = none;
  exhausted = false;
}

unfoldable pub set_floor : MemoryCursor → CursorSeek → MemoryCursor
set_floor c to_first = c
set_floor c (to_key key) = elim c.kind [
  | on_store store ↦ record c { floor_record = some ((store, key), true) }
  | on_index store id unique ↦ record c { floor_index = some ((id, (key, [])), true) }
]
set_floor c (to_key_and_primary_key key pkey) = elim c.kind [
  | on_store store ↦ record c { floor_record = some ((store, key), true) }
  | on_index store id unique ↦ record c { floor_index = some ((id, (key, pkey)), true) }
]

unfoldable pub seek :
    StorageState
    → Pending
    → MemoryCursor
    → CursorSeek
    → Option (MemoryCursor × Result BackendError Bool)
seek state p c target = advance state p (set_floor (rewound c) target)

-- The loop of `step`, over the count.
unfoldable pub advance_times :
    StorageState → Pending → ℕ → MemoryCursor → Option (MemoryCursor × Result BackendError Bool)
advance_times state p zero c = some (c, ok true)
advance_times state p (suc count) c = elim (advance state p c) [
  | none ↦ none
  | some (d, err e) ↦ some (d, err e)
  | some (d, ok false) ↦ some (d, ok false)
  | some (d, ok true) ↦ advance_times state p count d
]

unfoldable pub step :
    StorageState → Pending → MemoryCursor → ℕ → Option (MemoryCursor × Result BackendError Bool)
step state p c count = if c.exhausted then some (c, ok false) else advance_times state p count c

abbrev pub entry_key : Option CursorEntry → List ℕ
entry_key none = []
entry_key (some (key, pkey, val)) = key

abbrev pub entry_primary_key : Option CursorEntry → List ℕ
entry_primary_key none = []
entry_primary_key (some (key, pkey, val)) = pkey

abbrev pub entry_record : Option CursorEntry → Option (List ℕ)
entry_record none = none
entry_record (some (key, pkey, val)) = val

unfoldable pub current_key : MemoryCursor → List ℕ
current_key c = if c.exhausted then [] else entry_key c.current

unfoldable pub current_primary_key : MemoryCursor → List ℕ
current_primary_key c = if c.exhausted then [] else entry_primary_key c.current

unfoldable pub current_value : MemoryCursor → Option (List ℕ)
current_value c = if c.key_only then none else if c.exhausted then none else entry_record c.current
