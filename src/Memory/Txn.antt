-- ===== src/Memory/Txn.antt =====
-- The operations of a transaction on the in-memory backend, crates/boa_idb_memory/src/txn.rs: the
-- requests' savepoints, and the writes of records, index entries and key generators. An operation
-- returns the transaction after it and the source's result; `count`, `scan` and the schema
-- operations are not here.
use indexed_db_boa.Base.{
  ℕ, ◌+◌, Bool, ◌&&◌, List, [], ◌∷◌, ◌++◌, Option, none, some, any, retain, Result, ok, err, ◌>>◌,
  ◌==◌, if◌then◌else◌,
}
use indexed_db_boa.Base.Lex.{bytes_ord, store_ord}
use indexed_db_boa.Base.Map.{get, same, insert, remove, keys}
use indexed_db_boa.Backend.{BackendError, internal, constraint}
use indexed_db_boa.Key.Range.{EncodedRange, contains}
use indexed_db_boa.Memory.{
  RecordKey, IndexKey, record_ord, index_ord, StorageState, absent, deleted, value, UndoOp,
  restore_record, restore_index, restore_key_gen, Pending, MemoryTxn, check_scope, check_readwrite,
  read_record, pending_slot, is_some, record_exists, key_gen_current,
}

-- `undo_stack.last_mut()` and the push on it.
unfoldable pub log_all : List UndoOp → List (List UndoOp) → List (List UndoOp)
log_all ops [] = []
log_all ops (level ∷ levels) = (level ++ ops) ∷ levels

-- The source's `?` on the guards at the head of an operation.
abbrev pub checked {ℓ} :
    {A : Type ℓ}
    → Result BackendError (Unit {0})
    → MemoryTxn
    → MemoryTxn × Result BackendError A
    → MemoryTxn × Result BackendError A
checked (ok u) t r = r
checked (err e) t r = (t, err e)

unfoldable pub begin_request : MemoryTxn → MemoryTxn × Result BackendError (Unit {0})
begin_request t = (record t { undo_stack = [] ∷ t.undo_stack }, ok tt)

unfoldable pub commit_request : MemoryTxn → MemoryTxn × Result BackendError (Unit {0})
commit_request t = elim t.undo_stack [
  | [] ↦ (t, err internal)
  | ops ∷ levels ↦ (record t { undo_stack = log_all ops levels }, ok tt)
]

-- The body of the loop of `rollback_request`.
unfoldable pub undo : UndoOp → Pending → Pending
undo (restore_record key (value val)) p = record p { records = insert key (some val) p.records }
undo (restore_record key deleted) p = record p { records = insert key none p.records }
undo (restore_record key absent) p = record p { records = remove key p.records }
undo (restore_index key (some existed)) p = record p {
  index_entries = insert key existed p.index_entries;
}
undo (restore_index key none) p = record p { index_entries = remove key p.index_entries }
undo (restore_key_gen store old_val) p = record p {
  key_generators = insert store old_val p.key_generators;
}

-- `ops.into_iter().rev()`: the last of the list first.
unfoldable pub undo_all : List UndoOp → Pending → Pending
undo_all [] p = p
undo_all (op ∷ ops) p = undo op (undo_all ops p)

unfoldable pub rollback_request : MemoryTxn → MemoryTxn × Result BackendError (Unit {0})
rollback_request t = elim t.undo_stack [
  | [] ↦ (t, err internal)
  | ops ∷ levels ↦ (record t { undo_stack = levels; pending = undo_all ops t.pending }, ok tt)
]

-- What every write of a record does: it logs the pending slot, then sets it.
unfoldable pub write_record : RecordKey → Option (List ℕ) → MemoryTxn → MemoryTxn
write_record key val t = record t {
  pending = record t.pending { records = insert key val t.pending.records };
  undo_stack = log_all (restore_record key (pending_slot t.pending key) ∷ []) t.undo_stack;
}

unfoldable pub write_index : IndexKey → Bool → MemoryTxn → MemoryTxn
write_index key existed t = record t {
  pending = record t.pending { index_entries = insert key existed t.pending.index_entries };
  undo_stack = log_all (restore_index key (get key t.pending.index_entries) ∷ []) t.undo_stack;
}

unfoldable pub put :
    StorageState
    → MemoryTxn
    → ℕ
    → List ℕ
    → List ℕ
    → Bool
    → MemoryTxn × Result BackendError (Unit {0})
put state t store key val no_overwrite = checked (check_scope t store >> check_readwrite t) t (
    if no_overwrite && record_exists state t.pending (store, key)
    then (t, err constraint)
    else (write_record (store, key) (some val) t, ok tt))

unfoldable pub get_record :
    StorageState → MemoryTxn → ℕ → List ℕ → Result BackendError (Option (List ℕ))
get_record state t store key = check_scope t store >> ok (read_record state t.pending (store, key))

unfoldable pub delete_record :
    StorageState → MemoryTxn → ℕ → List ℕ → MemoryTxn × Result BackendError Bool
delete_record state t store key =
    checked (check_scope t store >> check_readwrite t) t
      (write_record (store, key) none t, ok (is_some (read_record state t.pending (store, key))))

-- The keys of a store in a range, and whether a list of keys has one.
abbrev pub in_range : ℕ → EncodedRange → RecordKey → Bool
in_range store range key = (key.0 == store) && contains range key.1

abbrev pub contains_key : List RecordKey → RecordKey → Bool
contains_key ks key = any (λ k. same k key) ks

-- The loop over the committed keys of `delete_range`; the number is its `count`.
unfoldable pub delete_committed : StorageState → List RecordKey → MemoryTxn → ℕ → MemoryTxn × ℕ
delete_committed state [] t count = (t, count)
delete_committed state (key ∷ ks) t count =
    delete_committed state ks (write_record key none t)
      (if is_some (read_record state t.pending key) then count + 1 else count)

-- A pending-only record: the pending value leaves the map.
unfoldable pub forget_record : RecordKey → List ℕ → MemoryTxn → MemoryTxn
forget_record key val t = record t {
  pending = record t.pending { records = remove key t.pending.records };
  undo_stack = log_all (restore_record key (value val) ∷ []) t.undo_stack;
}

-- One round of the loop over the pending keys.
unfoldable pub delete_pending_key : List RecordKey → RecordKey → MemoryTxn × ℕ → MemoryTxn × ℕ
delete_pending_key committed key (t, count) =
    if contains_key committed key then (t, count) else elim (get key t.pending.records) [
      | some (some val) ↦ (forget_record key val t, count + 1)
      | some none ↦ (t, count)
      | none ↦ (t, count)
    ]

unfoldable pub delete_pending : List RecordKey → List RecordKey → MemoryTxn × ℕ → MemoryTxn × ℕ
delete_pending committed [] r = r
delete_pending committed (key ∷ ks) r =
    delete_pending committed ks (delete_pending_key committed key r)

unfoldable pub delete_range :
    StorageState → MemoryTxn → ℕ → EncodedRange → MemoryTxn × Result BackendError ℕ
delete_range state t store range = checked (check_scope t store >> check_readwrite t) t (
    let keys_in_range = retain (in_range store range) (keys state.records) in
    let pending_keys = retain (in_range store range) (keys t.pending.records) in
    let r = delete_pending keys_in_range pending_keys (delete_committed state keys_in_range t 0) in
    (r.0, ok r.1))

-- The loop of `clear` that adds the pending keys.
unfoldable pub add_keys : List RecordKey → List RecordKey → List RecordKey
add_keys ks [] = ks
add_keys ks (key ∷ more) =
    if contains_key ks key then add_keys ks more else add_keys (ks ++ key ∷ []) more

unfoldable pub clear_keys : List RecordKey → MemoryTxn → MemoryTxn
clear_keys [] t = t
clear_keys (key ∷ ks) t = clear_keys ks (write_record key none t)

abbrev pub in_store : ℕ → RecordKey → Bool
in_store store key = key.0 == store

unfoldable pub clear : StorageState → MemoryTxn → ℕ → MemoryTxn × Result BackendError (Unit {0})
clear state t store = checked (check_scope t store >> check_readwrite t) t (
  clear_keys
      (add_keys (retain (in_store store) (keys state.records))
        (retain (in_store store) (keys t.pending.records)))
      t,
  ok tt,
)

unfoldable pub key_gen_set :
    StorageState → MemoryTxn → ℕ → ℕ → MemoryTxn × Result BackendError (Unit {0})
key_gen_set state t store val = checked (check_readwrite t) t (
  record t {
    pending = record t.pending { key_generators = insert store val t.pending.key_generators };
    undo_stack =
        log_all (restore_key_gen store (key_gen_current state t.pending store) ∷ []) t.undo_stack;
  },
  ok tt,
)
