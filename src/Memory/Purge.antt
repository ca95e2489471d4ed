-- ===== src/Memory/Purge.antt =====
-- The engine's deletion and clearing, crates/boa_idb_core/src/engine/ops_store.rs, on the in-memory
-- backend, and the index entries after them.
use indexed_db_boa.Base.{
  ℕ, ◌≡◌, refl, sym, ap, ◌∙◌, subst, true, false, ◌&&◌, List, none, some, Result, ok, err,
  if◌then◌else◌, arith, ok_inj,
}
use indexed_db_boa.Base.Lex.{bytes_ord, store_ord}
use indexed_db_boa.Base.Map.{get}
use indexed_db_boa.Base.Sorted.{Sorted}
use indexed_db_boa.Backend.{StoreMeta, IndexMeta, BackendError}
use indexed_db_boa.Engine.Store.{purge_keys, purge_deleted, delete_records, clear_store}
use indexed_db_boa.Key.Range.{EncodedRange, all, contains}
use indexed_db_boa.Memory.{
  RecordKey, IndexKey, record_ord, index_ord, StorageState, MemoryTxn, is_some, check_scope,
  check_readwrite, read_record, index_entry_exists,
}
use indexed_db_boa.Memory.Txn.{in_range, in_store, delete_range, clear}
use indexed_db_boa.Memory.Primary.{Keeps}
use indexed_db_boa.Memory.Cursor.Calls.{store_fuel}
use indexed_db_boa.Memory.Traits.{memory_txn}
use indexed_db_boa.Memory.PurgeIndexes.{keeps_index, purge_keys-Purged}
use indexed_db_boa.Memory.Collect.{collects}
use indexed_db_boa.Memory.DeleteRange.{
  KeepsIndexes, delete_range-KeepsIndexes, delete_range-read, clear-KeepsIndexes, clear-read,
  KeepsIndexes-check_readwrite,
}

module _ (state : StorageState) where
  read_record-Keeps :
      (t u : MemoryTxn) (k : RecordKey)
      → Keeps t u
      → read_record state u.pending k ≡ read_record state t.pending k
  unfolding read_record
  read_record-Keeps t u k h =
      ap (λ m. elim (get k m) [ some val ↦ val | none ↦ get k state.records ]) h.keeps_records

  index_entry_exists-KeepsIndexes :
      (t u : MemoryTxn) (k : IndexKey)
      → KeepsIndexes t u
      → index_entry_exists state u.pending k ≡ index_entry_exists state t.pending k
  unfolding index_entry_exists
  index_entry_exists-KeepsIndexes t u k h =
      ap (λ m. elim (get k m) [ some e ↦ e | none ↦ is_some (get k state.index_entries) ])
        h.same_entries

  purge_deleted-ok :
      {A : Type 0} (indexes : List IndexMeta) (ks : List (List ℕ))
      (z : MemoryTxn × Result BackendError A) (n : A)
      → z.1 ≡ ok n
      → (purge_keys (memory_txn state) indexes ks z.0).1 ≡ ok tt
      → purge_deleted (memory_txn state) indexes ks z
        ≡ ((purge_keys (memory_txn state) indexes ks z.0).0, ok n)
  unfolding purge_deleted
  purge_deleted-ok indexes ks (u, err e) n h q = cc
  purge_deleted-ok indexes ks (u, ok m) n h q =
      let v = (purge_keys (memory_txn state) indexes ks u).0 in
      ap (λ x. elim x [ err e ↦ (v, err e) | ok d ↦ (v, ok m) ]) q ∙ (λ i. (v, ok (ok_inj h i)))

-- A deletion of a range by the engine on the in-memory backend, on maps in key order and with the
-- transaction's guards met: it succeeds; every read of a key of the store in the range finds nothing
-- after it, and of any other key what it found; an index of the store that is not deleted has no entry
-- of a deleted record left, and every other index entry is as before.
pub delete_records_purges :
    (state : StorageState) (t : MemoryTxn) (meta : StoreMeta) (range : EncodedRange)
    → Sorted state.records
    → Sorted t.pending.records
    → Sorted t.pending.index_entries
    → check_scope t meta.id ≡ ok tt
    → check_readwrite t ≡ ok tt
    → (u : MemoryTxn) × (n : ℕ) × (delete_records
          (memory_txn state)
          (store_fuel state t.pending)
          t
          meta
          range
        ≡ some (u, ok n))
      × ((k : RecordKey)
          → read_record state u.pending k
            ≡ (if in_range meta.id range k then none else read_record state t.pending k))
      × ((j : ℕ) (ik qk : List ℕ)
          → index_entry_exists state u.pending (j, (ik, qk)) ≡ (
              if keeps_index meta.indexes j
                && (contains range qk && is_some (read_record state t.pending (meta.id, qk)))
              then false
              else index_entry_exists state t.pending (j, (ik, qk))))
unfolding delete_records
delete_records_purges state t meta range s1 s2 s3 h g =
    let (ks, e, has) = collects state t meta.id range s1 s2 h in
    let (n, r, k) = delete_range-KeepsIndexes state t meta.id range h g in
    let z = delete_range state t meta.id range in
    let (q, (l, x)) =
      purge_keys-Purged state meta.indexes ks z.0 (subst Sorted (sym k.same_entries) s3)
        (KeepsIndexes-check_readwrite t z.0 k ∙ g) in
    let u = (purge_keys (memory_txn state) meta.indexes ks z.0).0 in
    (
      u,
      n,
      ap
            (λ o. elim o [
              | none ↦ none
              | some (err e) ↦ some (t, err e)
              | some (ok doomed) ↦ some (purge_deleted (memory_txn state) meta.indexes doomed z)
            ])
            e
          ∙ ap some (purge_deleted-ok state meta.indexes ks z n r q),
      λ key. read_record-Keeps state z.0 u key l ∙ delete_range-read state t meta.id range n r key,
      λ j ik qk.
          x j ik qk
          ∙ ground (arith, has qk, index_entry_exists-KeepsIndexes state t z.0 (j, (ik, qk)) k),
    )

contains-all : (k : List ℕ) → contains all k ≡ true
unfolding contains all
contains-all k = refl

-- A clearing of a store by the engine on the in-memory backend, on maps in key order and with the
-- transaction's guards met: it succeeds; every read of a key of the store finds nothing after it, and
-- of any other key what it found; an index of the store that is not deleted has no entry of a record
-- that was there left, and every other index entry is as before.
pub clear_store_purges :
    (state : StorageState) (t : MemoryTxn) (meta : StoreMeta)
    → Sorted state.records
    → Sorted t.pending.records
    → Sorted t.pending.index_entries
    → check_scope t meta.id ≡ ok tt
    → check_readwrite t ≡ ok tt
    → (u : MemoryTxn) × (clear_store (memory_txn state) (store_fuel state t.pending) t meta
        ≡ some (u, ok tt))
      × ((k : RecordKey)
          → read_record state u.pending k
            ≡ (if in_store meta.id k then none else read_record state t.pending k))
      × ((j : ℕ) (ik qk : List ℕ)
          → index_entry_exists state u.pending (j, (ik, qk)) ≡ (
              if keeps_index meta.indexes j && is_some (read_record state t.pending (meta.id, qk))
              then false
              else index_entry_exists state t.pending (j, (ik, qk))))
unfolding clear_store
clear_store_purges state t meta s1 s2 s3 h g =
    let (ks, e, has) = collects state t meta.id all s1 s2 h in
    let (r, k) = clear-KeepsIndexes state t meta.id h g in
    let z = clear state t meta.id in
    let (q, (l, x)) =
      purge_keys-Purged state meta.indexes ks z.0 (subst Sorted (sym k.same_entries) s3)
        (KeepsIndexes-check_readwrite t z.0 k ∙ g) in
    let u = (purge_keys (memory_txn state) meta.indexes ks z.0).0 in
    (
      u,
      ap
            (λ o. elim o [
              | none ↦ none
              | some (err e) ↦ some (t, err e)
              | some (ok doomed) ↦ some (purge_deleted (memory_txn state) meta.indexes doomed z)
            ])
            e
          ∙ ap some (purge_deleted-ok state meta.indexes ks z tt r q),
      λ key. read_record-Keeps state z.0 u key l ∙ clear-read state t meta.id r key,
      λ j ik qk.
          x j ik qk
          ∙ ground (
            arith,
            has qk,
            contains-all qk,
            index_entry_exists-KeepsIndexes state t z.0 (j, (ik, qk)) k,
          ),
    )
