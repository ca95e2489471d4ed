-- ===== src/Memory/Writes.antt =====
-- The calls of crates/boa_idb_memory/src/txn.rs between two requests, and the writes they are made of.

use indexed_db_boa.Base.{
  ℕ, ◌+◌, ◌≡◌, refl, Bool, true, false, not, ◌&&◌, List, [], ◌∷◌, Option, none, some, retain,
  Result, ok, err, ◌>>◌, if◌then◌else◌, Option-cases, inl, inr, Bool-cases,
}
use indexed_db_boa.Base.Map.{get, keys}
use indexed_db_boa.Backend.{BackendError, constraint, StoreSpec, IndexSpec}
use indexed_db_boa.Key.Range.{EncodedRange}
use indexed_db_boa.Memory.{
  RecordKey, IndexKey, StorageState, MemoryTxn, record_exists, read_record, is_some, check_scope,
  check_readwrite, record_ord, index_entry_exists,
}
use indexed_db_boa.Memory.Txn.{
  checked, write_record, write_index, forget_record, put, delete_record, delete_committed,
  delete_pending_key, delete_pending, contains_key, in_range, delete_range, clear_keys, clear,
  key_gen_set,
}
use indexed_db_boa.Memory.Index.{
  index_put, index_delete, delete_entries, index_delete_by_primary, find_index_entries, is_empty,
}
use indexed_db_boa.Memory.Schema.{
  set_version, create_store, delete_store, rename_store, create_index, delete_index, rename_index,
  check_upgrade,
}

-- The calls between two requests, on a transaction `t` over the committed state `state`.
pub data Call (state : StorageState) (t : MemoryTxn) : MemoryTxn → Type 0 where
  puts :
      (store : ℕ) (key val : List ℕ) (no_overwrite : Bool)
      → Call state t (put state t store key val no_overwrite).0
  deletes : (store : ℕ) (key : List ℕ) → Call state t (delete_record state t store key).0
  deletes_range :
      (store : ℕ) (range : EncodedRange) → Call state t (delete_range state t store range).0
  clears : (store : ℕ) → Call state t (clear state t store).0
  sets_key_gen : (store val : ℕ) → Call state t (key_gen_set state t store val).0
  puts_index :
      (index : ℕ) (idx_key primary_key : List ℕ) (unique : Bool)
      → Call state t (index_put state t index idx_key primary_key unique).0
  deletes_index :
      (index : ℕ) (idx_key primary_key : List ℕ)
      → Call state t (index_delete t index idx_key primary_key).0
  deletes_by_primary :
      (index : ℕ) (primary_key : List ℕ)
      → Call state t (index_delete_by_primary state t index primary_key).0
  sets_version : (version : ℕ) → Call state t (set_version t version).0
  creates_store : (spec : StoreSpec) → Call state t (create_store t spec).0
  deletes_store : (id : ℕ) → Call state t (delete_store t id).0
  renames_store : (id : ℕ) (name : List ℕ) → Call state t (rename_store t id name).0
  creates_index : (store : ℕ) (spec : IndexSpec) → Call state t (create_index t store spec).0
  drops_index : (store id : ℕ) → Call state t (delete_index t store id).0
  renames_index : (store id : ℕ) (name : List ℕ) → Call state t (rename_index t store id name).0

-- The writes that every call is made of: changes of the metadata, single writes, and their sequences.
pub data Writes (state : StorageState) : MemoryTxn → MemoryTxn → Type 0 where
  writes_meta :
      {t u : MemoryTxn} → u.pending ≡ t.pending → u.undo_stack ≡ t.undo_stack → Writes state t u
  writes_record :
      {t : MemoryTxn} (key : RecordKey) (val : Option (List ℕ))
      → Writes state t (write_record key val t)
  forgets_record :
      {t : MemoryTxn} (key : RecordKey) (val : List ℕ)
      → get key t.pending.records ≡ some (some val)
      → Writes state t (forget_record key val t)
  writes_index :
      {t : MemoryTxn} (key : IndexKey) (existed : Bool) → Writes state t (write_index key existed t)
  writes_key_gen :
      {t : MemoryTxn} (store val : ℕ) → Writes state t (key_gen_set state t store val).0
  follows : {t u v : MemoryTxn} → Writes state t u → Writes state u v → Writes state t v

module _ (state : StorageState) where
  checked-Writes {ℓ} :
      {A : Type ℓ} (guard : Result BackendError (Unit {0})) (t : MemoryTxn)
      (r : MemoryTxn × Result BackendError A)
      → Writes state t r.0
      → Writes state t (checked guard t r).0
  checked-Writes (ok u) t r h = h
  checked-Writes (err e) t r h = writes_meta refl refl

  if-Writes {ℓ} :
      {A : Type ℓ} (b : Bool) (t : MemoryTxn) (r s : MemoryTxn × Result BackendError A)
      → Writes state t r.0
      → Writes state t s.0
      → Writes state t (if b then r else s).0
  if-Writes true t r s h k = h
  if-Writes false t r s h k = k

  delete_committed-Writes :
      (ks : List RecordKey) (t : MemoryTxn) (count : ℕ)
      → Writes state t (delete_committed state ks t count).0
  unfolding delete_committed
  delete_committed-Writes [] t count = writes_meta refl refl
  delete_committed-Writes (key ∷ ks) t count =
      let c = if is_some (read_record state t.pending key) then count + 1 else count in
      let u = write_record key none t in
      follows {u = u} (writes_record key none) (delete_committed-Writes ks u c)

  delete_pending_key-Writes :
      (committed : List RecordKey) (key : RecordKey) (t : MemoryTxn) (count : ℕ)
      → Writes state t (delete_pending_key committed key (t, count)).0
  unfolding delete_pending_key
  delete_pending_key-Writes committed key t count = elim (Bool-cases (contains_key committed key)) [
    | inl h ↦ rw h (writes_meta refl refl)
    | inr h ↦ rw h (elim (Option-cases (get key t.pending.records)) [
      | inl g ↦ rw g (writes_meta refl refl)
      | inr (none, g) ↦ rw g (writes_meta refl refl)
      | inr (some val, g) ↦ rw g (forgets_record key val g)
    ])
  ]

  delete_pending-Writes :
      (committed ks : List RecordKey) (r : MemoryTxn × ℕ)
      → Writes state r.0 (delete_pending committed ks r).0
  unfolding delete_pending
  delete_pending-Writes committed [] r = writes_meta refl refl
  delete_pending-Writes committed (key ∷ ks) r =
      let q = delete_pending_key committed key r in
      follows {u = q.0} (delete_pending_key-Writes committed key r.0 r.1)
        (delete_pending-Writes committed ks q)

  clear_keys-Writes : (ks : List RecordKey) (t : MemoryTxn) → Writes state t (clear_keys ks t)
  unfolding clear_keys
  clear_keys-Writes [] t = writes_meta refl refl
  clear_keys-Writes (key ∷ ks) t =
      let u = write_record key none t in
      follows {u = u} (writes_record key none) (clear_keys-Writes ks u)

  delete_entries-Writes :
      (index : ℕ) (primary_key : List ℕ) (idx_keys : List (List ℕ)) (t : MemoryTxn)
      → Writes state t (delete_entries index primary_key idx_keys t)
  unfolding delete_entries
  delete_entries-Writes index primary_key [] t = writes_meta refl refl
  delete_entries-Writes index primary_key (ik ∷ more) t =
      let u = write_index (index, (ik, primary_key)) false t in
      follows {u = u} (writes_index (index, (ik, primary_key)) false)
        (delete_entries-Writes index primary_key more u)

  pub Call-Writes : {t u : MemoryTxn} → Call state t u → Writes state t u
  unfolding put delete_record delete_range clear index_put index_delete index_delete_by_primary
      set_version create_store delete_store rename_store create_index delete_index rename_index
  Call-Writes {t} (puts store key val keep) =
      checked-Writes (check_scope t store >> check_readwrite t) t _ (
        if-Writes (keep && record_exists state t.pending (store, key)) t _ _ (writes_meta refl refl)
          (writes_record (store, key) (some val)))
  Call-Writes {t} (deletes store key) =
      checked-Writes (check_scope t store >> check_readwrite t) t _
        (writes_record (store, key) none)
  Call-Writes {t} (deletes_range store range) =
      checked-Writes (check_scope t store >> check_readwrite t) t _ (
        let committed = retain (in_range store range) (keys state.records) in
        let pending_keys = retain (in_range store range) (keys t.pending.records) in
        let r = delete_committed state committed t 0 in
        follows {u = r.0} (delete_committed-Writes committed t 0)
          (delete_pending-Writes committed pending_keys r))
  Call-Writes {t} (clears store) =
      checked-Writes (check_scope t store >> check_readwrite t) t _ (clear_keys-Writes _ t)
  Call-Writes {t} (sets_key_gen store val) = writes_key_gen store val
  Call-Writes {t} (puts_index index ik pk unique) = checked-Writes (check_readwrite t) t _ (
      if-Writes
        (unique
          && not (index_entry_exists state t.pending (index, (ik, pk)))
          && not (is_empty (find_index_entries state t.pending index ik)))
        t (t, err constraint) (write_index (index, (ik, pk)) true t, ok tt) (writes_meta refl refl)
        (writes_index (index, (ik, pk)) true))
  Call-Writes {t} (deletes_index index ik pk) =
      checked-Writes (check_readwrite t) t _ (writes_index (index, (ik, pk)) false)
  Call-Writes {t} (deletes_by_primary index pk) =
      checked-Writes (check_readwrite t) t _ (delete_entries-Writes index pk _ t)
  Call-Writes {t} (sets_version version) =
      checked-Writes (check_upgrade t) t _ (writes_meta refl refl)
  Call-Writes {t} (creates_store spec) =
      checked-Writes (check_upgrade t) t _ (writes_meta refl refl)
  Call-Writes {t} (deletes_store id) = checked-Writes (check_upgrade t) t _ (writes_meta refl refl)
  Call-Writes {t} (renames_store id name) =
      checked-Writes (check_upgrade t) t _ (writes_meta refl refl)
  Call-Writes {t} (creates_index store spec) =
      checked-Writes (check_upgrade t) t _ (writes_meta refl refl)
  Call-Writes {t} (drops_index store id) =
      checked-Writes (check_upgrade t) t _ (writes_meta refl refl)
  Call-Writes {t} (renames_index store id name) =
      checked-Writes (check_upgrade t) t _ (writes_meta refl refl)
