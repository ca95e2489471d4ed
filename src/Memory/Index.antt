-- ===== src/Memory/Index.antt =====
-- The index entries and the end of a transaction on the in-memory backend,
-- crates/boa_idb_memory/src/txn.rs.
use indexed_db_boa.Base.{
  ℕ, Bool, true, false, not, ◌&&◌, List, [], ◌∷◌, ◌++◌, Option, none, some, any, Result, ok, err,
  ◌==◌, if◌then◌else◌,
}
use indexed_db_boa.Base.Lex.{bytes_ord, store_ord}
use indexed_db_boa.Base.Map.{Map, get, same, insert, remove}
use indexed_db_boa.Backend.{BackendError, constraint}
use indexed_db_boa.Memory.{
  RecordKey, IndexKey, record_ord, index_ord, StorageState, Pending, MemoryTxn, check_readwrite,
  index_entry_exists,
}
use indexed_db_boa.Memory.Txn.{checked, write_index}

-- Whether a committed entry is not overridden by a pending deletion.
unfoldable pub is_live : Pending → IndexKey → Bool
is_live p key = elim (get key p.index_entries) [ some existed ↦ existed | none ↦ true ]

-- The loops of `find_index_entries`: the committed entries, then the pending ones.
unfoldable pub committed_entries :
    Pending → ℕ → List ℕ → Map IndexKey (Unit {0}) → List (List ℕ × Bool)
committed_entries p index idx_key [] = []
committed_entries p index idx_key (((iid, (ik, pk)), u) ∷ m) =
    let rest = committed_entries p index idx_key m in
    if (iid == index) && same ik idx_key && is_live p (index, (ik, pk))
    then (pk, true) ∷ rest
    else rest

unfoldable pub add_pending_entries :
    ℕ → List ℕ → Map IndexKey Bool → List (List ℕ × Bool) → List (List ℕ × Bool)
add_pending_entries index idx_key [] results = results
add_pending_entries index idx_key (((iid, (ik, pk)), existed) ∷ m) results =
    add_pending_entries index idx_key m (
      if (iid == index) && same ik idx_key && existed && not (any (λ r. same r.0 pk) results)
      then results ++ (pk, true) ∷ []
      else results)

unfoldable pub find_index_entries : StorageState → Pending → ℕ → List ℕ → List (List ℕ × Bool)
find_index_entries state p index idx_key =
    add_pending_entries index idx_key p.index_entries
      (committed_entries p index idx_key state.index_entries)

-- The same for the entries of a primary key.
unfoldable pub committed_by_primary : Pending → ℕ → List ℕ → Map IndexKey (Unit {0}) → List (List ℕ)
committed_by_primary p index primary_key [] = []
committed_by_primary p index primary_key (((iid, (ik, pk)), u) ∷ m) =
    let rest = committed_by_primary p index primary_key m in
    if (iid == index) && same pk primary_key && is_live p (index, (ik, pk)) then ik ∷ rest else rest

unfoldable pub add_pending_by_primary :
    ℕ → List ℕ → Map IndexKey Bool → List (List ℕ) → List (List ℕ)
add_pending_by_primary index primary_key [] results = results
add_pending_by_primary index primary_key (((iid, (ik, pk)), existed) ∷ m) results =
    add_pending_by_primary index primary_key m (
      if (iid == index) && same pk primary_key && existed && not (any (λ r. same r ik) results)
      then results ++ ik ∷ []
      else results)

unfoldable pub find_index_entries_by_primary : StorageState → Pending → ℕ → List ℕ → List (List ℕ)
find_index_entries_by_primary state p index primary_key =
    add_pending_by_primary index primary_key p.index_entries
      (committed_by_primary p index primary_key state.index_entries)

abbrev pub is_empty {ℓ} : {A : Type ℓ} → List A → Bool
is_empty [] = true
is_empty (a ∷ rest) = false

unfoldable pub index_put :
    StorageState
    → MemoryTxn
    → ℕ
    → List ℕ
    → List ℕ
    → Bool
    → MemoryTxn × Result BackendError (Unit {0})
index_put state t index idx_key primary_key unique = checked (check_readwrite t) t (
    if unique
      && not (index_entry_exists state t.pending (index, (idx_key, primary_key)))
      && not (is_empty (find_index_entries state t.pending index idx_key))
    then (t, err constraint)
    else (write_index (index, (idx_key, primary_key)) true t, ok tt))

unfoldable pub index_delete :
    MemoryTxn → ℕ → List ℕ → List ℕ → MemoryTxn × Result BackendError (Unit {0})
index_delete t index idx_key primary_key =
    checked (check_readwrite t) t (write_index (index, (idx_key, primary_key)) false t, ok tt)

unfoldable pub delete_entries : ℕ → List ℕ → List (List ℕ) → MemoryTxn → MemoryTxn
delete_entries index primary_key [] t = t
delete_entries index primary_key (idx_key ∷ more) t =
    delete_entries index primary_key more (write_index (index, (idx_key, primary_key)) false t)

unfoldable pub index_delete_by_primary :
    StorageState → MemoryTxn → ℕ → List ℕ → MemoryTxn × Result BackendError (Unit {0})
index_delete_by_primary state t index primary_key = checked (check_readwrite t) t (
  delete_entries index primary_key (find_index_entries_by_primary state t.pending index primary_key)
      t,
  ok tt,
)

-- The loops of `commit`, over the entries in key order.
unfoldable pub commit_records :
    Map RecordKey (Option (List ℕ)) → Map RecordKey (List ℕ) → Map RecordKey (List ℕ)
commit_records [] records = records
commit_records ((key, some val) ∷ m) records = commit_records m (insert key val records)
commit_records ((key, none) ∷ m) records = commit_records m (remove key records)

unfoldable pub commit_entries :
    Map IndexKey Bool → Map IndexKey (Unit {0}) → Map IndexKey (Unit {0})
commit_entries [] entries = entries
commit_entries ((key, true) ∷ m) entries = commit_entries m (insert key tt entries)
commit_entries ((key, false) ∷ m) entries = commit_entries m (remove key entries)

unfoldable pub commit_generators : Map ℕ ℕ → Map ℕ ℕ → Map ℕ ℕ
commit_generators [] generators = generators
commit_generators ((store, val) ∷ m) generators = commit_generators m (insert store val generators)

unfoldable pub commit : StorageState → MemoryTxn → StorageState × Result BackendError (Unit {0})
commit state t = (
  record {
    databases = insert t.db_meta.name t.db_meta state.databases;
    records = commit_records t.pending.records state.records;
    index_entries = commit_entries t.pending.index_entries state.index_entries;
    key_generators = commit_generators t.pending.key_generators state.key_generators;
  },
  ok tt,
)
