-- ===== src/Memory/Commit.antt =====
-- `commit` of crates/boa_idb_memory/src/txn.rs against the reads of the transaction it commits.
use indexed_db_boa.Base.{
  ℕ, ◌≡◌, refl, sym, subst, Bool, true, false, List, [], ◌∷◌, Option, none, some, if◌then◌else◌,
  arith, Bool-cases, inl, inr, ok,
}
use indexed_db_boa.Base.Lex.{bytes_ord, store_ord}
use indexed_db_boa.Base.Map.{Map, get, same, insert, remove, get-insert, get-remove}
use indexed_db_boa.Base.Sorted.{Sorted, insert-Sorted, remove-Sorted, Above-absent}
use indexed_db_boa.Engine.{is_read_only}
use indexed_db_boa.Memory.{
  RecordKey, IndexKey, record_ord, index_ord, StorageState, absent, deleted, value, UndoOp,
  restore_record, restore_index, restore_key_gen, Pending, MemoryTxn, no_pending, new,
  check_readwrite, read_record, index_entry_exists, key_gen_current,
}
use indexed_db_boa.Memory.Txn.{
  undo, undo_all, begin_request, commit_request, rollback_request, write_record, write_index,
  forget_record, key_gen_set,
}
use indexed_db_boa.Memory.Index.{commit_records, commit_entries, commit_generators, commit}
use indexed_db_boa.Memory.Writes.{
  Call-Writes, Writes, writes_meta, writes_record, forgets_record, writes_index, writes_key_gen,
  follows,
}
use indexed_db_boa.Memory.Requests.{Reach, starts, begins, commits, rolls_back, calls}

abbrev pub PendingSorted : Pending → Type 0
PendingSorted p = Sorted p.records × Sorted p.index_entries × Sorted p.key_generators

undo-Sorted : (op : UndoOp) (p : Pending) → PendingSorted p → PendingSorted (undo op p)
unfolding undo
undo-Sorted (restore_record key (value val)) p (r, i, g) =
    (insert-Sorted key (some val) p.records r, i, g)
undo-Sorted (restore_record key deleted) p (r, i, g) = (insert-Sorted key none p.records r, i, g)
undo-Sorted (restore_record key absent) p (r, i, g) = (remove-Sorted key p.records r, i, g)
undo-Sorted (restore_index key (some existed)) p (r, i, g) =
    (r, insert-Sorted key existed p.index_entries i, g)
undo-Sorted (restore_index key none) p (r, i, g) = (r, remove-Sorted key p.index_entries i, g)
undo-Sorted (restore_key_gen store old) p (r, i, g) =
    (r, i, insert-Sorted store old p.key_generators g)

undo_all-Sorted :
    (ops : List UndoOp) (p : Pending) → PendingSorted p → PendingSorted (undo_all ops p)
unfolding undo_all
undo_all-Sorted [] p h = h
undo_all-Sorted (op ∷ ops) p h = undo-Sorted op (undo_all ops p) (undo_all-Sorted ops p h)

key_gen_set-Sorted :
    (state : StorageState) (t : MemoryTxn) (store val : ℕ)
    → PendingSorted t.pending
    → PendingSorted (key_gen_set state t store val).0.pending
unfolding key_gen_set check_readwrite
key_gen_set-Sorted state t store val h = elim (Bool-cases (is_read_only t.mode)) [
  | inl e ↦ rw e h
  | inr e ↦ rw e (h.0, h.1, insert-Sorted store val t.pending.key_generators h.2)
]

Writes-Sorted :
    {state : StorageState} {t u : MemoryTxn}
    → Writes state t u
    → PendingSorted t.pending
    → PendingSorted u.pending
unfolding write_record forget_record write_index
Writes-Sorted (writes_meta e f) h = subst PendingSorted (sym e) h
Writes-Sorted (writes_record {t} key val) (r, i, g) =
    (insert-Sorted key val t.pending.records r, i, g)
Writes-Sorted (forgets_record {t} key val e) (r, i, g) =
    (remove-Sorted key t.pending.records r, i, g)
Writes-Sorted (writes_index {t} key existed) (r, i, g) =
    (r, insert-Sorted key existed t.pending.index_entries i, g)
Writes-Sorted {state} (writes_key_gen {t} store val) h = key_gen_set-Sorted state t store val h
Writes-Sorted (follows a b) h = Writes-Sorted b (Writes-Sorted a h)

rollback_request-Sorted :
    (t : MemoryTxn) → PendingSorted t.pending → PendingSorted (rollback_request t).0.pending
unfolding rollback_request
rollback_request-Sorted t h = go t.undo_stack
  where
    go :
        (levels : List (List UndoOp))
        → PendingSorted (rollback_request (record t { undo_stack = levels })).0.pending
    go [] = h
    go (ops ∷ levels) = undo_all-Sorted ops t.pending h

commit_request-pending : (t : MemoryTxn) → (commit_request t).0.pending ≡ t.pending
unfolding commit_request
commit_request-pending t = go t.undo_stack
  where
    go :
        (levels : List (List UndoOp))
        → (commit_request (record t { undo_stack = levels })).0.pending ≡ t.pending
    go [] = refl
    go (ops ∷ levels) = refl

pub Reach-Sorted :
    {state : StorageState} {t : MemoryTxn} {saved : List Pending}
    → Reach state t saved
    → PendingSorted t.pending
unfolding begin_request
Reach-Sorted (starts {t} mode scope meta e) = rw e (unfold new in (tt, tt, tt))
Reach-Sorted (begins r) = Reach-Sorted r
Reach-Sorted (commits {t} r) = subst PendingSorted (sym (commit_request-pending t)) (Reach-Sorted r)
Reach-Sorted (rolls_back {t} r) = rollback_request-Sorted t (Reach-Sorted r)
Reach-Sorted {state} (calls r c) = Writes-Sorted (Call-Writes state c) (Reach-Sorted r)

commit_records-get :
    (m : Map RecordKey (Option (List ℕ))) (entries : Map RecordKey (List ℕ)) (k : RecordKey)
    → Sorted m
    → get k (commit_records m entries) ≡ (elim (get k m) [ none ↦ get k entries | some val ↦ val ])
unfolding get commit_records
commit_records-get [] entries k h = refl
commit_records-get ((j, some v) ∷ m) entries k h = elim (Bool-cases (same j k)) [
  | inl e ↦ ground (
    arith,
    e,
    commit_records-get m (insert j v entries) k h.1,
    get-insert k j v entries,
    Above-absent j k m h.0 e,
  )
  | inr e ↦
      ground (arith, e, commit_records-get m (insert j v entries) k h.1, get-insert k j v entries)
]
commit_records-get ((j, none) ∷ m) entries k h = elim (Bool-cases (same j k)) [
  | inl e ↦ ground (
    arith,
    e,
    commit_records-get m (remove j entries) k h.1,
    get-remove k j entries,
    Above-absent j k m h.0 e,
  )
  | inr e ↦ ground (arith, e, commit_records-get m (remove j entries) k h.1, get-remove k j entries)
]

commit_entries-get :
    (m : Map IndexKey Bool) (entries : Map IndexKey (Unit {0})) (k : IndexKey)
    → Sorted m
    → get k (commit_entries m entries)
      ≡ (elim (get k m) [ none ↦ get k entries | some existed ↦ if existed then some tt else none ])
unfolding get commit_entries
commit_entries-get [] entries k h = refl
commit_entries-get ((j, true) ∷ m) entries k h = elim (Bool-cases (same j k)) [
  | inl e ↦ ground (
    arith,
    e,
    commit_entries-get m (insert j tt entries) k h.1,
    get-insert k j tt entries,
    Above-absent j k m h.0 e,
  )
  | inr e ↦
      ground (arith, e, commit_entries-get m (insert j tt entries) k h.1, get-insert k j tt entries)
]
commit_entries-get ((j, false) ∷ m) entries k h = elim (Bool-cases (same j k)) [
  | inl e ↦ ground (
    arith,
    e,
    commit_entries-get m (remove j entries) k h.1,
    get-remove k j entries,
    Above-absent j k m h.0 e,
  )
  | inr e ↦ ground (arith, e, commit_entries-get m (remove j entries) k h.1, get-remove k j entries)
]

commit_generators-get :
    (m : Map ℕ ℕ) (entries : Map ℕ ℕ) (k : ℕ)
    → Sorted m
    → get k (commit_generators m entries)
      ≡ (elim (get k m) [ none ↦ get k entries | some val ↦ some val ])
unfolding get commit_generators
commit_generators-get [] entries k h = refl
commit_generators-get ((j, v) ∷ m) entries k h = elim (Bool-cases (same j k)) [
  | inl e ↦ ground (
    arith,
    e,
    commit_generators-get m (insert j v entries) k h.1,
    get-insert k j v entries,
    Above-absent j k m h.0 e,
  )
  | inr e ↦
      ground
        (arith, e, commit_generators-get m (insert j v entries) k h.1, get-insert k j v entries)
]

module _ {state : StorageState} {t : MemoryTxn} {saved : List Pending}
    (r : Reach state t saved) where
  committed_record :
      (k : RecordKey) → read_record (commit state t).0 no_pending k ≡ read_record state t.pending k
  unfolding read_record commit get
  committed_record k =
      ground (arith, commit_records-get t.pending.records state.records k (Reach-Sorted r).0)

  committed_entry :
      (k : IndexKey)
      → index_entry_exists (commit state t).0 no_pending k ≡ index_entry_exists state t.pending k
  unfolding index_entry_exists commit get
  committed_entry k =
      ground
        (arith, commit_entries-get t.pending.index_entries state.index_entries k (Reach-Sorted r).1)

  committed_generator :
      (s : ℕ) → key_gen_current (commit state t).0 no_pending s ≡ key_gen_current state t.pending s
  unfolding key_gen_current commit get
  committed_generator s = ground (
    arith,
    commit_generators-get t.pending.key_generators state.key_generators s (Reach-Sorted r).2,
  )

-- On a committed state that does not change meanwhile: `commit` succeeds, and a transaction that
-- starts on the state it leaves reads every record, every index entry and every key generator as the
-- committed transaction last read it.
pub commit_reads :
    {state : StorageState} {t : MemoryTxn} {saved : List Pending}
    → Reach state t saved
    → let (s, res) = commit state t in
      (res ≡ ok tt)
      × ((k : RecordKey) → read_record s no_pending k ≡ read_record state t.pending k)
      × ((k : IndexKey) → index_entry_exists s no_pending k ≡ index_entry_exists state t.pending k)
      × ((store : ℕ) → key_gen_current s no_pending store ≡ key_gen_current state t.pending store)
unfolding commit
commit_reads r = (refl, committed_record r, committed_entry r, committed_generator r)
