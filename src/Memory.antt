-- ===== src/Memory.antt =====
-- The in-memory backend, crates/boa_idb_memory/src: the committed state of storage.rs, and the state of
-- a transaction of txn.rs with what it reads. The committed state stands behind a lock that every
-- transaction of the database shares, so it is an argument of the calls that read it.
pub mod Txn
pub mod Index
pub mod Schema
pub mod Ids
pub mod Savepoints
pub mod Writes
pub mod Commit
pub mod Requests
pub mod Reads
pub mod Deletion
pub mod Unique
pub mod Primary
pub mod Traits
pub mod PurgeIndexes
pub mod Collect
pub mod DeleteRange
pub mod Purge
pub mod Refused
pub mod Cursor
mod Tests
use indexed_db_boa.Base.{
  ℕ, ◌≡◌, ◌↔◌, refl, sym, ap, ◌∙◌, Bool, true, false, not, ◌&&◌, List, [], ◌∷◌, ◌++◌, Option, none,
  some, any, retain, Result, ok, err, ◌==◌, if◌then◌else◌, arith, ==_iff,
}
use indexed_db_boa.Base.Order.{
  Ordering, compare, then_with, cmp_slice, cmp_slice_eq, cmp_slice_refl, cmp_slice-swap,
  cmp_slice_trans, swap,
}
use indexed_db_boa.Base.Lex.{store_ord, bytes_ord, pair_ord}
use indexed_db_boa.Base.Map.{Ord, Map, get, same}
use indexed_db_boa.Backend.{DatabaseMeta, BackendError, internal}
use indexed_db_boa.Engine.{TxnMode, is_version_change, is_read_only}
use indexed_db_boa.Engine.Scheduler.{contains}

-- (store_id, encoded_key_bytes)
abbrev pub RecordKey : Type 0
RecordKey = ℕ × List ℕ

-- (index_id, index_key_bytes, primary_key_bytes)
abbrev pub IndexKey : Type 0
IndexKey = ℕ × (List ℕ × List ℕ)

instance abbrev pub record_ord : Ord RecordKey
record_ord = pair_ord store_ord bytes_ord

instance abbrev pub index_ord : Ord IndexKey
index_ord = pair_ord store_ord (pair_ord bytes_ord bytes_ord)

-- `index_entries` is a `BTreeMap<IndexKey, ()>`; an f64 is its bits; a database's name is its code units.
pub record StorageState : Type 0 where
  pub databases : Map (List ℕ) DatabaseMeta
  pub records : Map RecordKey (List ℕ)
  pub index_entries : Map IndexKey (Unit {0})
  pub key_generators : Map ℕ ℕ

pub data PendingSlot : Type 0 where
  absent deleted : PendingSlot
  value : List ℕ → PendingSlot

pub data UndoOp : Type 0 where
  restore_record : RecordKey → PendingSlot → UndoOp
  restore_index : IndexKey → Option Bool → UndoOp
  restore_key_gen : ℕ → ℕ → UndoOp

-- The transaction-local data.
pub record Pending : Type 0 where
  pub records : Map RecordKey (Option (List ℕ))
  pub index_entries : Map IndexKey Bool
  pub key_generators : Map ℕ ℕ

-- The head of `undo_stack` is the last element of the source's vector.
pub record MemoryTxn : Type 0 where
  pub mode : TxnMode
  pub scope : List ℕ
  pub db_meta : DatabaseMeta
  pub pending : Pending
  pub undo_stack : List (List UndoOp)

abbrev pub no_pending : Pending
no_pending = record { records = []; index_entries = []; key_generators = [] }

unfoldable pub new : TxnMode → List ℕ → DatabaseMeta → MemoryTxn
new mode scope db_meta = record {
  mode = mode;
  scope = scope;
  db_meta = db_meta;
  pending = no_pending;
  undo_stack = [];
}

unfoldable pub check_scope : MemoryTxn → ℕ → Result BackendError (Unit {0})
check_scope t store =
    if is_version_change t.mode
    then ok tt
    else if not (contains t.scope store)
    then err internal
    else ok tt

unfoldable pub check_readwrite : MemoryTxn → Result BackendError (Unit {0})
check_readwrite t = if is_read_only t.mode then err internal else ok tt

unfoldable pub read_record : StorageState → Pending → RecordKey → Option (List ℕ)
read_record state p key = elim (get key p.records) [ some val ↦ val | none ↦ get key state.records ]

-- What the pending map holds for a key.
abbrev pub slot_of : Option (Option (List ℕ)) → PendingSlot
slot_of none = absent
slot_of (some none) = deleted
slot_of (some (some val)) = value val

unfoldable pub pending_slot : Pending → RecordKey → PendingSlot
pending_slot p key = slot_of (get key p.records)

abbrev pub is_some {ℓ} : {A : Type ℓ} → Option A → Bool
is_some none = false
is_some (some a) = true

unfoldable pub record_exists : StorageState → Pending → RecordKey → Bool
record_exists state p key = elim (get key p.records) [
  | some val ↦ is_some val
  | none ↦ is_some (get key state.records)
]

unfoldable pub index_entry_exists : StorageState → Pending → IndexKey → Bool
index_entry_exists state p key = elim (get key p.index_entries) [
  | some existed ↦ existed
  | none ↦ is_some (get key state.index_entries)
]

-- 1.0
abbrev pub one_bits : ℕ
one_bits = 0x3FF0_0000_0000_0000

unfoldable pub key_gen_current : StorageState → Pending → ℕ → ℕ
key_gen_current state p store = elim (get store p.key_generators) [
  | some val ↦ val
  | none ↦ elim (get store state.key_generators) [ some val ↦ val | none ↦ one_bits ]
]
