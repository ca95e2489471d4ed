-- ===== src/Memory/Tests.antt =====
-- The in-memory backend at concrete states, and its theorems there.
use indexed_db_boa.Base.{
  arith, any, ◌==◌, ℕ, ◌⊎◌, ◌≡◌, refl, true, false, ◌&&◌, List, [], ◌∷◌, none, some, ok, err, ◌>>◌,
  if◌then◌else◌,
}
use indexed_db_boa.Base.Map.{same, get, insert}
use indexed_db_boa.Engine.{read_only, read_write, version_change}
use indexed_db_boa.Backend.{
  DatabaseMeta, StoreSpec, StoreMeta, empty, BackendError, internal, constraint,
}
use indexed_db_boa.Key.Range.{EncodedRange}
use indexed_db_boa.Memory.{
  Pending, RecordKey, IndexKey, record_ord, index_ord, StorageState, MemoryTxn, new, no_pending,
  check_scope, check_readwrite, read_record, is_some, index_entry_exists, key_gen_current,
}
use indexed_db_boa.Memory.Txn.{
  begin_request, commit_request, rollback_request, write_index, put, delete_range, in_range,
  in_store,
}
use indexed_db_boa.Memory.Index.{
  commit, index_put, find_index_entries, committed_entries, add_pending_entries,
}
use indexed_db_boa.Memory.Unique.{has_entry, IsUnique, index_put-IsUnique, find_index_entries_exact}
use indexed_db_boa.Base.Sorted.{Sorted}
use indexed_db_boa.Base.Order.{cmp_slice}
use indexed_db_boa.Memory.Savepoints.{SamePending}
use indexed_db_boa.Memory.Writes.{puts_index, puts, deletes_range}
use indexed_db_boa.Memory.Requests.{
  Reach, starts, begins, commits, rolls_back, calls, rollback_restores, rollback_unmatched,
}
use indexed_db_boa.Memory.Schema.{create_store, delete_store, check_upgrade}
use indexed_db_boa.Memory.Ids.{opened, upgraded, creates_store, deletes_store, create_store_fresh}
use indexed_db_boa.Memory.Commit.{commit_reads}
use indexed_db_boa.Memory.Reads.{put_reads}
use indexed_db_boa.Engine.Store.{backend_err, delete_records, clear_store}
use indexed_db_boa.Key.Range.{contains}
use indexed_db_boa.Memory.Traits.{memory_txn}
use indexed_db_boa.Memory.Cursor.Calls.{store_fuel}
use indexed_db_boa.Memory.PurgeIndexes.{keeps_index}
use indexed_db_boa.Memory.Refused.{delete_records_refused}
use indexed_db_boa.Memory.Purge.{delete_records_purges, clear_store_purges}
use indexed_db_boa.Memory.Deletion.{delete_range_reads}

abbrev empty_meta : DatabaseMeta
empty_meta = record { name = []; version = 1; stores = []; next_store_id = 1; next_index_id = 1 }

-- Two records of store 1.
abbrev two_records : StorageState
two_records = record {
  databases = [];
  records = ((1, 5 ∷ []), 50 ∷ []) ∷ ((1, 7 ∷ []), 70 ∷ []) ∷ [];
  index_entries = [];
  key_generators = [];
}

abbrev fresh : MemoryTxn
fresh = new read_write (1 ∷ []) empty_meta

abbrev wide : EncodedRange
wide = record { lower = some (5 ∷ [], false); upper = none }

-- A deletion in an outer request, and an inner one, committed, that writes the same record again.
abbrev outer : MemoryTxn
outer = (begin_request fresh).0

abbrev nested : MemoryTxn
nested =
    (put two_records (begin_request (delete_range two_records outer 1 wide).0).0 1 (5 ∷ [])
      (51 ∷ []) false).0

nested-Reach : Reach two_records (commit_request nested).0 (fresh.pending ∷ [])
nested-Reach = commits (
    calls
      (begins (calls (begins (starts read_write (1 ∷ []) empty_meta refl)) (deletes_range 1 wide)))
      (puts 1 (5 ∷ []) (51 ∷ []) false))

rollback_restores_example :
    let (u, r) = rollback_request (commit_request nested).0 in
    (r ≡ ok tt) × SamePending two_records u.pending fresh.pending
rollback_restores_example = rollback_restores nested-Reach

rollback_unmatched_example :
    let t = (rollback_request (commit_request nested).0).0 in
    (rollback_request t ≡ (t, err internal)) × (commit_request t ≡ (t, err internal))
rollback_unmatched_example = rollback_unmatched (rolls_back nested-Reach)

commit_reads_example :
    let t = (commit_request nested).0 in
    let (s, res) = commit two_records t in
    (res ≡ ok tt)
    × ((k : RecordKey) → read_record s no_pending k ≡ read_record two_records t.pending k)
    × ((k : IndexKey)
        → index_entry_exists s no_pending k ≡ index_entry_exists two_records t.pending k)
    × ((store : ℕ)
        → key_gen_current s no_pending store ≡ key_gen_current two_records t.pending store)
commit_reads_example = commit_reads nested-Reach

delete_range_reads_example :
    let (u, r) = delete_range two_records fresh 1 wide in
    let guards = check_scope fresh 1 >> check_readwrite fresh in
    ((e : BackendError) × (guards ≡ err e) × (r ≡ err e) × (u ≡ fresh))
    ⊎ ((n : ℕ) × (guards ≡ ok tt)
        × (r ≡ ok n)
        × ((k : RecordKey)
            → read_record two_records u.pending k
              ≡ (if in_range 1 wide k then none else read_record two_records fresh.pending k)))
delete_range_reads_example = delete_range_reads two_records fresh 1 wide

fresh_scope : check_scope fresh 1 ≡ ok tt
unfolding check_scope new
fresh_scope = refl

fresh_readwrite : check_readwrite fresh ≡ ok tt
unfolding check_readwrite new
fresh_readwrite = refl

put_reads_example :
    let (u, r) = put two_records fresh 1 (5 ∷ []) (51 ∷ []) true in
    (((true && is_some (read_record two_records fresh.pending (1, 5 ∷ []))) ≡ true)
      × (r ≡ err constraint)
      × (u ≡ fresh))
    ⊎ (((true && is_some (read_record two_records fresh.pending (1, 5 ∷ []))) ≡ false)
        × (r ≡ ok tt)
        × ((k : RecordKey)
            → read_record two_records u.pending k ≡ (
                if same (1, 5 ∷ []) k
                then some (51 ∷ [])
                else read_record two_records fresh.pending k)))
put_reads_example =
    put_reads two_records fresh 1 (5 ∷ []) (51 ∷ []) true fresh_scope fresh_readwrite

-- An index entry of a fresh transaction, and another under the same key, which is refused.
abbrev one_entry : MemoryTxn
one_entry = (index_put two_records fresh 9 (1 ∷ []) (5 ∷ []) true).0

fresh-IsUnique : IsUnique two_records fresh.pending 9
unfolding index_entry_exists new get
fresh-IsUnique ik pk qk h k = cc

fresh-Reach : Reach two_records fresh []
fresh-Reach = starts read_write (1 ∷ []) empty_meta refl

one_entry_refuses : (index_put two_records one_entry 9 (1 ∷ []) (7 ∷ []) true).1 ≡ err constraint
unfolding index_put check_readwrite new index_entry_exists find_index_entries committed_entries
    add_pending_entries write_index get insert cmp_slice
one_entry_refuses = refl

index_put-IsUnique_example :
    IsUnique two_records (index_put two_records one_entry 9 (1 ∷ []) (7 ∷ []) true).0.pending 9
index_put-IsUnique_example =
    index_put-IsUnique (calls fresh-Reach (puts_index 9 (1 ∷ []) (5 ∷ []) true)) 9 (1 ∷ []) (7 ∷ [])
      (index_put-IsUnique fresh-Reach 9 (1 ∷ []) (5 ∷ []) fresh-IsUnique)

-- A committed entry that is pending as deleted, and a pending one.
abbrev entries : StorageState
entries = record two_records { index_entries = ((9, (1 ∷ [], 5 ∷ [])), tt) ∷ [] }

abbrev overridden : Pending
overridden = record no_pending {
  index_entries = ((9, (1 ∷ [], 5 ∷ [])), false) ∷ ((9, (1 ∷ [], 7 ∷ [])), true) ∷ [];
}

overridden-Sorted : Sorted overridden.index_entries
unfolding cmp_slice
overridden-Sorted = ((refl, tt), (tt, tt))

find_index_entries_exact_example :
    has_entry (find_index_entries entries overridden 9 (1 ∷ [])) (5 ∷ [])
    ≡ index_entry_exists entries overridden (9, (1 ∷ [], 5 ∷ []))
find_index_entries_exact_example =
    find_index_entries_exact entries overridden 9 (1 ∷ []) (5 ∷ []) overridden-Sorted

-- An upgrade that has made a store and deleted it.
abbrev notes : StoreSpec
notes = record { name = 110 ∷ []; key_path = empty; auto_increment = true }

abbrev upgrading : MemoryTxn
upgrading = new version_change [] empty_meta

abbrev emptied : MemoryTxn
emptied = (delete_store (create_store upgrading notes).0 1).0

emptied_creates : (create_store emptied notes).1 ≡ ok 2
unfolding create_store delete_store check_upgrade new
emptied_creates = refl

create_store_fresh_example : any (λ (s : StoreMeta). s.id == 2) emptied.db_meta.stores ≡ false
unfolding new
create_store_fresh_example =
    create_store_fresh {t = upgrading} {u = emptied} tt
      (upgraded (upgraded opened (creates_store notes)) (deletes_store 1)) (omega arith)
      (omega arith) notes 2 emptied_creates

-- Index 9 of store 1 refers to both records.
abbrev two_indexed : StorageState
two_indexed = record {
  databases = [];
  records = ((1, 5 ∷ []), 50 ∷ []) ∷ ((1, 7 ∷ []), 70 ∷ []) ∷ [];
  index_entries = ((9, (8 ∷ [], 5 ∷ [])), tt) ∷ ((9, (8 ∷ [], 7 ∷ [])), tt) ∷ [];
  key_generators = [];
}

abbrev store_one : StoreMeta
store_one = record {
  id = 1;
  name = [];
  key_path = empty;
  auto_increment = false;
  key_gen = 0;
  indexes =
      record {
        id = 9;
        store_id = 1;
        name = [];
        key_path = empty;
        unique = false;
        multi_entry = false;
        deleted = false;
      }
      ∷ [];
  deleted = false;
}

two_indexed-Sorted : Sorted two_indexed.records
unfolding cmp_slice
two_indexed-Sorted = ((refl, tt), (tt, tt))

fresh-Sorted : Sorted fresh.pending.records
unfolding new
fresh-Sorted = tt

fresh_entries-Sorted : Sorted fresh.pending.index_entries
unfolding new
fresh_entries-Sorted = tt

delete_records_purges_example :
    (u : MemoryTxn) × (n : ℕ) × (delete_records
        (memory_txn two_indexed)
        (store_fuel two_indexed fresh.pending)
        fresh
        store_one
        wide
      ≡ some (u, ok n))
    × ((k : RecordKey)
        → read_record two_indexed u.pending k
          ≡ (if in_range 1 wide k then none else read_record two_indexed fresh.pending k))
    × ((j : ℕ) (ik qk : List ℕ)
        → index_entry_exists two_indexed u.pending (j, (ik, qk)) ≡ (
            if keeps_index store_one.indexes j
              && (contains wide qk && is_some (read_record two_indexed fresh.pending (1, qk)))
            then false
            else index_entry_exists two_indexed fresh.pending (j, (ik, qk))))
delete_records_purges_example =
    delete_records_purges two_indexed fresh store_one wide two_indexed-Sorted fresh-Sorted
      fresh_entries-Sorted fresh_scope fresh_readwrite

clear_store_purges_example :
    (u : MemoryTxn) × (clear_store
        (memory_txn two_indexed)
        (store_fuel two_indexed fresh.pending)
        fresh
        store_one
      ≡ some (u, ok tt))
    × ((k : RecordKey)
        → read_record two_indexed u.pending k
          ≡ (if in_store 1 k then none else read_record two_indexed fresh.pending k))
    × ((j : ℕ) (ik qk : List ℕ)
        → index_entry_exists two_indexed u.pending (j, (ik, qk)) ≡ (
            if keeps_index store_one.indexes j
              && is_some (read_record two_indexed fresh.pending (1, qk))
            then false
            else index_entry_exists two_indexed fresh.pending (j, (ik, qk))))
clear_store_purges_example =
    clear_store_purges two_indexed fresh store_one two_indexed-Sorted fresh-Sorted
      fresh_entries-Sorted fresh_scope fresh_readwrite

abbrev reader : MemoryTxn
reader = new read_only (1 ∷ []) empty_meta

reader_refuses : (check_scope reader 1 >> check_readwrite reader) ≡ err internal
unfolding check_scope check_readwrite new
reader_refuses = refl

reader-Sorted : Sorted reader.pending.records
unfolding new
reader-Sorted = tt

delete_records_refused_example :
    delete_records
      (memory_txn two_indexed)
      (store_fuel two_indexed reader.pending)
      reader
      store_one
      wide
    ≡ some (reader, err (backend_err internal))
delete_records_refused_example =
    delete_records_refused two_indexed reader store_one wide internal two_indexed-Sorted
      reader-Sorted reader_refuses
