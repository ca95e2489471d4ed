-- ===== src/Memory/Refused.antt =====
-- The engine's deletion of records, crates/boa_idb_core/src/engine/ops_store.rs, on the in-memory
-- backend where a guard fails.
use indexed_db_boa.Base.{
  Option, Result-cases, inl, inr, ◌>>◌, ℕ, ◌≡◌, refl, sym, ap, ◌∙◌, true, List, none, some, Result,
  ok, err,
}
use indexed_db_boa.Base.Lex.{bytes_ord, store_ord}
use indexed_db_boa.Base.Sorted.{Sorted}
use indexed_db_boa.Backend.{store_source, StoreMeta, BackendError}
use indexed_db_boa.Engine.Store.{
  backend_err, collect_keys, collect_range_keys, purge_deleted, delete_records,
}
use indexed_db_boa.Key.Range.{EncodedRange}
use indexed_db_boa.Memory.{
  record_ord, index_ord, StorageState, MemoryTxn, check_scope, check_readwrite,
}
use indexed_db_boa.Memory.Txn.{delete_range}
use indexed_db_boa.Memory.Cursor.Calls.{scan, seek, store_fuel}
use indexed_db_boa.Memory.Traits.{memory_txn}
use indexed_db_boa.Memory.Collect.{collects}
use indexed_db_boa.Backend.Traits.{next, to_first}
use indexed_db_boa.Engine.{IdbError}

module _ (state : StorageState) (t : MemoryTxn) (meta : StoreMeta) (range : EncodedRange) where
  scan-refused :
      (x : BackendError)
      → check_scope t meta.id ≡ err x
      → scan t (store_source meta.id) range next true ≡ err x
  unfolding scan
  scan-refused x h = rw (scan, h) refl

  collect_range_keys-refused :
      (x : BackendError)
      → check_scope t meta.id ≡ err x
      → collect_range_keys (memory_txn state) (store_fuel state t.pending) t meta.id range
        ≡ some (err (backend_err x))
  unfolding collect_range_keys
  collect_range_keys-refused x h =
      ap
        (λ r. elim r [
          | err e ↦ some (err (backend_err e))
          | ok c ↦
              collect_keys (memory_txn state) (store_fuel state t.pending) t
                (seek state t.pending c to_first)
        ])
        (scan-refused x h)

  delete_range-refused :
      (x : BackendError)
      → check_scope t meta.id ≡ ok tt
      → check_readwrite t ≡ err x
      → delete_range state t meta.id range ≡ (t, err x)
  unfolding delete_range
  delete_range-refused x h g = rw (h, g) refl

  delete_records-after :
      (r : Option (Result IdbError (List (List ℕ))))
      → collect_range_keys (memory_txn state) (store_fuel state t.pending) t meta.id range ≡ r
      → delete_records (memory_txn state) (store_fuel state t.pending) t meta range ≡ (elim r [
        | none ↦ none
        | some (err e) ↦ some (t, err e)
        | some (ok doomed) ↦ some (
            purge_deleted
              (memory_txn state)
              meta.indexes
              doomed
              (delete_range state t meta.id range))
      ])
  unfolding delete_records
  delete_records-after r e =
      ap
        (λ o. elim o [
          | none ↦ none
          | some (err e) ↦ some (t, err e)
          | some (ok doomed) ↦ some (
              purge_deleted (memory_txn state) meta.indexes doomed
                (delete_range state t meta.id range))
        ])
        e

  purge_deleted-refused :
      (ks : List (List ℕ)) (x : BackendError)
      → delete_range state t meta.id range ≡ (t, err x)
      → purge_deleted (memory_txn state) meta.indexes ks (delete_range state t meta.id range)
        ≡ (t, err (backend_err x))
  unfolding purge_deleted
  purge_deleted-refused ks x e = ap (purge_deleted (memory_txn state) meta.indexes ks) e

-- A deletion of a range by the engine on the in-memory backend, on maps in key order, when the store
-- is out of scope or the transaction reads only: the error of the first guard that fails, as the engine
-- reports it, and nothing is changed.
pub delete_records_refused :
    (state : StorageState) (t : MemoryTxn) (meta : StoreMeta) (range : EncodedRange)
    (x : BackendError)
    → Sorted state.records
    → Sorted t.pending.records
    → (check_scope t meta.id >> check_readwrite t) ≡ err x
    → delete_records (memory_txn state) (store_fuel state t.pending) t meta range
      ≡ some (t, err (backend_err x))
delete_records_refused state t meta range x s1 s2 h = elim (Result-cases (check_scope t meta.id)) [
  | inl (a, e) ↦
      let (ks, c, has) = collects state t meta.id range s1 s2 e in
      let g : check_readwrite t ≡ err x = ap (λ r. r >> check_readwrite t) (sym e) ∙ h in
      delete_records-after state t meta range (some (ok ks)) c
      ∙ ap some (
          purge_deleted-refused state t meta range ks x
            (delete_range-refused state t meta range x e g))
  | inr (y, e) ↦
      let g = ap (λ r. r >> check_readwrite t) (sym e) ∙ h in
      delete_records-after state t meta range (some (err (backend_err y)))
        (collect_range_keys-refused state t meta range y e)
      ∙ ap
          (λ (r : Result BackendError (Unit {0})).
            some (t, elim r [ err e ↦ err (backend_err e) | ok u ↦ err (backend_err y) ]))
          g
]
