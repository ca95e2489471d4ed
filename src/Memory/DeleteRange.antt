-- ===== src/Memory/DeleteRange.antt =====
-- What `delete_range` of crates/boa_idb_memory/src/txn.rs leaves as it was.
use indexed_db_boa.Base.{
  ℕ, ◌≡◌, refl, sym, ap, ◌∙◌, List, [], ◌∷◌, Option, none, some, ok, err, if◌then◌else◌, Bool-cases,
  Option-cases, retain, ◌+◌, inl, inr,
}
use indexed_db_boa.Base.Lex.{bytes_ord, store_ord}
use indexed_db_boa.Base.Map.{get, keys}
use indexed_db_boa.Backend.{internal}
use indexed_db_boa.Engine.{is_read_only}
use indexed_db_boa.Key.Range.{EncodedRange}
use indexed_db_boa.Memory.{
  RecordKey, record_ord, index_ord, StorageState, MemoryTxn, is_some, check_scope, check_readwrite,
  read_record,
}
use indexed_db_boa.Memory.Txn.{
  in_store, clear_keys, clear, in_range, contains_key, write_record, forget_record,
  delete_committed, delete_pending_key, delete_pending, delete_range,
}
use indexed_db_boa.Memory.Reads.{clear_reads}
use indexed_db_boa.Memory.Deletion.{delete_range_reads}

-- What a deletion of records leaves as it was.
pub record KeepsIndexes (t u : MemoryTxn) : Type 0 where
  pub same_mode : u.mode ≡ t.mode
  pub same_entries : u.pending.index_entries ≡ t.pending.index_entries

KeepsIndexes-refl : (t : MemoryTxn) → KeepsIndexes t t
KeepsIndexes-refl t = record { same_mode = refl; same_entries = refl }

KeepsIndexes-trans : (t u v : MemoryTxn) → KeepsIndexes t u → KeepsIndexes u v → KeepsIndexes t v
KeepsIndexes-trans t u v k l = record {
  same_mode = l.same_mode ∙ k.same_mode;
  same_entries = l.same_entries ∙ k.same_entries;
}

write_record-KeepsIndexes :
    (key : RecordKey) (val : Option (List ℕ)) (t : MemoryTxn)
    → KeepsIndexes t (write_record key val t)
unfolding write_record
write_record-KeepsIndexes key val t = record { same_mode = refl; same_entries = refl }

forget_record-KeepsIndexes :
    (key : RecordKey) (val : List ℕ) (t : MemoryTxn) → KeepsIndexes t (forget_record key val t)
unfolding forget_record
forget_record-KeepsIndexes key val t = record { same_mode = refl; same_entries = refl }

delete_committed-KeepsIndexes :
    (state : StorageState) (ks : List RecordKey) (t : MemoryTxn) (count : ℕ)
    → KeepsIndexes t (delete_committed state ks t count).0
unfolding delete_committed
delete_committed-KeepsIndexes state [] t count = KeepsIndexes-refl t
delete_committed-KeepsIndexes state (key ∷ ks) t count =
    KeepsIndexes-trans t (write_record key none t) _ (write_record-KeepsIndexes key none t) (
      delete_committed-KeepsIndexes state ks (write_record key none t)
        (if is_some (read_record state t.pending key) then count + 1 else count))

delete_pending_key-KeepsIndexes :
    (committed : List RecordKey) (key : RecordKey) (t : MemoryTxn) (count : ℕ)
    → KeepsIndexes t (delete_pending_key committed key (t, count)).0
unfolding delete_pending_key
delete_pending_key-KeepsIndexes committed key t count =
    elim (Bool-cases (contains_key committed key)) [
      | inl e ↦ rw e (KeepsIndexes-refl t)
      | inr e ↦ elim (Option-cases (get key t.pending.records)) [
        | inl n ↦ rw (e, n) (KeepsIndexes-refl t)
        | inr (none, n) ↦ rw (e, n) (KeepsIndexes-refl t)
        | inr (some val, n) ↦ rw (e, n) (forget_record-KeepsIndexes key val t)
      ]
    ]

delete_pending-KeepsIndexes :
    (committed ks : List RecordKey) (t : MemoryTxn) (count : ℕ)
    → KeepsIndexes t (delete_pending committed ks (t, count)).0
unfolding delete_pending
delete_pending-KeepsIndexes committed [] t count = KeepsIndexes-refl t
delete_pending-KeepsIndexes committed (key ∷ ks) t count =
    let r = delete_pending_key committed key (t, count) in
    KeepsIndexes-trans t r.0 _ (delete_pending_key-KeepsIndexes committed key t count)
      (delete_pending-KeepsIndexes committed ks r.0 r.1)

pub delete_range-KeepsIndexes :
    (state : StorageState) (t : MemoryTxn) (id : ℕ) (range : EncodedRange)
    → check_scope t id ≡ ok tt
    → check_readwrite t ≡ ok tt
    → let (u, r) = delete_range state t id range in (n : ℕ) × (r ≡ ok n) × KeepsIndexes t u
unfolding delete_range
delete_range-KeepsIndexes state t id range h g =
    let committed = retain (in_range id range) (keys state.records) in
    let d = delete_committed state committed t 0 in
    rw (h, g)
      (
        _,
        refl,
        KeepsIndexes-trans t d.0 _ (delete_committed-KeepsIndexes state committed t 0) (
            delete_pending-KeepsIndexes committed
              (retain (in_range id range) (keys t.pending.records)) d.0 d.1),
      )

pub delete_range-read :
    (state : StorageState) (t : MemoryTxn) (id : ℕ) (range : EncodedRange) (n : ℕ)
    → (delete_range state t id range).1 ≡ ok n
    → (k : RecordKey)
    → read_record state (delete_range state t id range).0.pending k
      ≡ (if in_range id range k then none else read_record state t.pending k)
delete_range-read state t id range n h = elim (delete_range_reads state t id range) [
  | inl (e, g, r, u) ↦ let f = sym h ∙ r in cc
  | inr (m, g, r, reads) ↦ reads
]

pub KeepsIndexes-check_readwrite :
    (t u : MemoryTxn) → KeepsIndexes t u → check_readwrite u ≡ check_readwrite t
unfolding check_readwrite
KeepsIndexes-check_readwrite t u k =
    ap (λ m. if is_read_only m then err internal else ok tt) k.same_mode

clear_keys-KeepsIndexes : (ks : List RecordKey) (t : MemoryTxn) → KeepsIndexes t (clear_keys ks t)
unfolding clear_keys
clear_keys-KeepsIndexes [] t = KeepsIndexes-refl t
clear_keys-KeepsIndexes (key ∷ ks) t =
    KeepsIndexes-trans t (write_record key none t) _ (write_record-KeepsIndexes key none t)
      (clear_keys-KeepsIndexes ks (write_record key none t))

pub clear-KeepsIndexes :
    (state : StorageState) (t : MemoryTxn) (id : ℕ)
    → check_scope t id ≡ ok tt
    → check_readwrite t ≡ ok tt
    → let (u, r) = clear state t id in (r ≡ ok tt) × KeepsIndexes t u
unfolding clear
clear-KeepsIndexes state t id h g = rw (h, g) (refl, clear_keys-KeepsIndexes _ t)

pub clear-read :
    (state : StorageState) (t : MemoryTxn) (id : ℕ)
    → (clear state t id).1 ≡ ok tt
    → (k : RecordKey)
    → read_record state (clear state t id).0.pending k
      ≡ (if in_store id k then none else read_record state t.pending k)
clear-read state t id h = elim (clear_reads state t id) [
  | inl (e, r, u) ↦ let f = sym h ∙ r in cc
  | inr (r, reads) ↦ reads
]
