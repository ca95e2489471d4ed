-- ===== src/Memory/Traits.antt =====
-- The in-memory backend of crates/boa_idb_memory/src as an implementation of the interface of
-- crates/boa_idb_core/src/backend/traits.rs, on a committed state that does not change meanwhile.
use indexed_db_boa.Backend.Traits.{BackendTxn}
use indexed_db_boa.Memory.{StorageState, MemoryTxn}
use indexed_db_boa.Memory.Txn.{delete_range, clear}
use indexed_db_boa.Memory.Index.{index_delete_by_primary}
use indexed_db_boa.Memory.Cursor.Kinds.{MemoryCursor}
use indexed_db_boa.Memory.Cursor.Calls.{scan, seek, step, current_key}

abbrev pub memory_txn : StorageState → BackendTxn MemoryTxn MemoryCursor
memory_txn state = record {
  delete_range = delete_range state;
  clear = clear state;
  index_delete_by_primary = index_delete_by_primary state;
  scan = scan;
  seek = λ t c target. seek state t.pending c target;
  step = λ t c count. step state t.pending c count;
  current_key = current_key;
}
