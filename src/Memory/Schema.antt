-- ===== src/Memory/Schema.antt =====
-- The schema operations of a transaction on the in-memory backend, crates/boa_idb_memory/src/txn.rs:
-- they change the metadata that `commit` stores, and no savepoint undoes them.
use indexed_db_boa.Base.{
  ℕ, ◌+◌, ◌%◌, ◌^◌, true, false, not, List, [], ◌∷◌, ◌++◌, Result, ok, err, ◌==◌, if◌then◌else◌,
}
use indexed_db_boa.Engine.{is_version_change}
use indexed_db_boa.Backend.{StoreSpec, IndexSpec, IndexMeta, StoreMeta, BackendError, internal}
use indexed_db_boa.Memory.{MemoryTxn, one_bits}
use indexed_db_boa.Memory.Txn.{checked}

-- The guard of every schema operation.
unfoldable pub check_upgrade : MemoryTxn → Result BackendError (Unit {0})
check_upgrade t = if not (is_version_change t.mode) then err internal else ok tt

-- `stores.iter_mut().find(|s| s.id == id)` and a change of what it finds.
unfoldable pub update_store : ℕ → (StoreMeta → StoreMeta) → List StoreMeta → List StoreMeta
update_store id f [] = []
update_store id f (s ∷ stores) = if s.id == id then f s ∷ stores else s ∷ update_store id f stores

unfoldable pub update_index : ℕ → (IndexMeta → IndexMeta) → List IndexMeta → List IndexMeta
update_index id f [] = []
update_index id f (i ∷ indexes) =
    if i.id == id then f i ∷ indexes else i ∷ update_index id f indexes

abbrev pub with_stores : (List StoreMeta → List StoreMeta) → MemoryTxn → MemoryTxn
with_stores f t = record t { db_meta = record t.db_meta { stores = f t.db_meta.stores } }

unfoldable pub set_version : MemoryTxn → ℕ → MemoryTxn × Result BackendError (Unit {0})
set_version t version =
    checked (check_upgrade t) t
      (record t { db_meta = record t.db_meta { version = version } }, ok tt)

unfoldable pub create_store : MemoryTxn → StoreSpec → MemoryTxn × Result BackendError ℕ
create_store t spec = checked (check_upgrade t) t (
    let id = t.db_meta.next_store_id in
    let s : StoreMeta = record {
      id = id;
      name = spec.name;
      key_path = spec.key_path;
      auto_increment = spec.auto_increment;
      key_gen = one_bits;
      indexes = [];
      deleted = false;
    } in
    (
      record t {
        db_meta = record t.db_meta {
          next_store_id = (id + 1) % 2 ^ 64;
          stores = t.db_meta.stores ++ s ∷ [];
        };
      },
      ok id,
    ))

unfoldable pub delete_store : MemoryTxn → ℕ → MemoryTxn × Result BackendError (Unit {0})
delete_store t id =
    checked (check_upgrade t) t
      (with_stores (update_store id (λ s. record s { deleted = true })) t, ok tt)

unfoldable pub rename_store : MemoryTxn → ℕ → List ℕ → MemoryTxn × Result BackendError (Unit {0})
rename_store t id new_name =
    checked (check_upgrade t) t
      (with_stores (update_store id (λ s. record s { name = new_name })) t, ok tt)

unfoldable pub create_index : MemoryTxn → ℕ → IndexSpec → MemoryTxn × Result BackendError ℕ
create_index t store spec = checked (check_upgrade t) t (
    let id = t.db_meta.next_index_id in
    let i : IndexMeta = record {
      id = id;
      store_id = store;
      name = spec.name;
      key_path = spec.key_path;
      unique = spec.unique;
      multi_entry = spec.multi_entry;
      deleted = false;
    } in
    (
      with_stores (update_store store (λ s. record s { indexes = s.indexes ++ i ∷ [] }))
          (record t { db_meta = record t.db_meta { next_index_id = (id + 1) % 2 ^ 64 } }),
      ok id,
    ))

unfoldable pub delete_index : MemoryTxn → ℕ → ℕ → MemoryTxn × Result BackendError (Unit {0})
delete_index t store id = checked (check_upgrade t) t (
  with_stores
      (update_store store
        (λ s. record s { indexes = update_index id (λ i. record i { deleted = true }) s.indexes }))
      t,
  ok tt,
)

unfoldable pub rename_index :
    MemoryTxn → ℕ → ℕ → List ℕ → MemoryTxn × Result BackendError (Unit {0})
rename_index t store id new_name = checked (check_upgrade t) t (
  with_stores
      (update_store store
        (λ s. record s { indexes = update_index id (λ i. record i { name = new_name }) s.indexes }))
      t,
  ok tt,
)
