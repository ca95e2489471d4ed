-- ===== src/Memory/Deletion.antt =====
-- What `delete_range` of crates/boa_idb_memory/src/txn.rs leaves for the reads of the same transaction.

use indexed_db_boa.Base.{
  ℕ, ◌+◌, ◌⊎◌, ◌≡◌, refl, sym, ap, ◌∙◌, true, false, List, [], ◌∷◌, Option, none, some, retain, ok,
  err, ◌>>◌, if◌then◌else◌, arith, Option-cases, Result-cases, inl, inr, Bool-cases,
}
use indexed_db_boa.Base.Map.{get, same, same_iff, keys, get-remove}
use indexed_db_boa.Backend.{BackendError}
use indexed_db_boa.Key.Range.{EncodedRange}
use indexed_db_boa.Memory.{
  RecordKey, StorageState, Pending, MemoryTxn, check_scope, check_readwrite, read_record, is_some,
  record_ord,
}
use indexed_db_boa.Memory.Txn.{
  write_record, forget_record, in_range, contains_key, delete_committed, delete_pending_key,
  delete_pending, delete_range,
}
use indexed_db_boa.Memory.Reads.{contains_key-retain, write_record-get}

module _ (state : StorageState) where
  delete_committed-get :
      (ks : List RecordKey) (t : MemoryTxn) (count : ℕ) (k : RecordKey)
      → get k (delete_committed state ks t count).0.pending.records
        ≡ (if contains_key ks k then some none else get k t.pending.records)
  unfolding delete_committed
  delete_committed-get [] t count k = refl
  delete_committed-get (key ∷ ks) t count k =
      let c = if is_some (read_record state t.pending key) then count + 1 else count in
      let u = write_record key none t in
      ground (arith, delete_committed-get ks u c k, write_record-get state key none t k)

  forget_record-read :
      (key : RecordKey) (val : List ℕ) (t : MemoryTxn) (k : RecordKey)
      → get k state.records ≡ none
      → read_record state (forget_record key val t).pending k
        ≡ (if same key k then none else read_record state t.pending k)
  unfolding read_record forget_record
  forget_record-read key val t k h =
      ground (arith, get-remove k key t.pending.records, same_iff key k)

  none_read :
      (p : Pending) (k : RecordKey) (slot : Option (Option (List ℕ)))
      → get k p.records ≡ slot
      → (elim slot [ none ↦ none | some val ↦ val ]) ≡ none
      → get k state.records ≡ none
      → read_record state p k ≡ none
  unfolding read_record
  none_read p k none h g e = ground arith
  none_read p k (some val) h g e = ground arith

  absent_read :
      (p : Pending) (key k : RecordKey) (slot : Option (Option (List ℕ)))
      → get key p.records ≡ slot
      → (elim slot [ none ↦ none | some val ↦ val ]) ≡ none
      → get k state.records ≡ none
      → read_record state p k ≡ (if same key k then none else read_record state p k)
  absent_read p key k slot h g e = elim (Bool-cases (same key k)) [
    | inl f ↦
        rw f (none_read p k slot (ap (λ j. get j p.records) (sym ((same_iff key k).0 f)) ∙ h) g e)
    | inr f ↦ rw f refl
  ]

  -- A pending key without a committed record ends up absent; no other key is touched.
  delete_pending_key-read :
      (committed : List RecordKey) (key : RecordKey) (r : MemoryTxn × ℕ) (k : RecordKey)
      → get k state.records ≡ none
      → contains_key committed k ≡ false
      → read_record state (delete_pending_key committed key r).0.pending k
        ≡ (if same key k then none else read_record state r.0.pending k)
  unfolding delete_pending_key
  delete_pending_key-read committed key (t, count) k h g =
      elim (Bool-cases (contains_key committed key)) [
        | inl e ↦ elim (Bool-cases (same key k)) [
          | inl f ↦ absurd (ground (arith, ap (contains_key committed) ((same_iff key k).0 f)))
          | inr f ↦ rw (e, f) refl
        ]
        | inr e ↦ rw e (elim (Option-cases (get key t.pending.records)) [
          | inl f ↦ rw f (absent_read t.pending key k none f refl h)
          | inr (none, f) ↦ rw f (absent_read t.pending key k (some none) f refl h)
          | inr (some val, f) ↦ rw f (forget_record-read key val t k h)
        ])
      ]

  delete_pending_key-get :
      (committed : List RecordKey) (key : RecordKey) (r : MemoryTxn × ℕ) (k : RecordKey)
      → (same key k ≡ true → contains_key committed k ≡ true)
      → get k (delete_pending_key committed key r).0.pending.records ≡ get k r.0.pending.records
  unfolding delete_pending_key forget_record
  delete_pending_key-get committed key (t, count) k h =
      elim (Bool-cases (contains_key committed key)) [
        | inl e ↦ rw e refl
        | inr e ↦ rw e (elim (Option-cases (get key t.pending.records)) [
          | inl f ↦ rw f refl
          | inr (none, f) ↦ rw f refl
          | inr (some val, f) ↦ rw f (
              ground (
                arith,
                get-remove k key t.pending.records,
                ap (contains_key committed) ((same_iff key k).0 _),
              ))
        ])
      ]

  delete_pending-read :
      (committed ks : List RecordKey) (r : MemoryTxn × ℕ) (k : RecordKey)
      → get k state.records ≡ none
      → contains_key committed k ≡ false
      → read_record state (delete_pending committed ks r).0.pending k
        ≡ (if contains_key ks k then none else read_record state r.0.pending k)
  unfolding delete_pending
  delete_pending-read committed [] r k h g = refl
  delete_pending-read committed (key ∷ ks) r k h g = ground (
    arith,
    delete_pending-read committed ks (delete_pending_key committed key r) k h g,
    delete_pending_key-read committed key r k h g,
  )

  delete_pending-get :
      (committed ks : List RecordKey) (r : MemoryTxn × ℕ) (k : RecordKey)
      → (contains_key ks k ≡ true → contains_key committed k ≡ true)
      → get k (delete_pending committed ks r).0.pending.records ≡ get k r.0.pending.records
  unfolding delete_pending
  delete_pending-get committed [] r k h = refl
  delete_pending-get committed (key ∷ ks) r k h =
      delete_pending-get committed ks (delete_pending_key committed key r) k (λ e. h (ground arith))
      ∙ delete_pending_key-get committed key r k (λ e. h (ground arith))

  same_slot-read :
      (p q : Pending) (k : RecordKey)
      → get k p.records ≡ get k q.records
      → read_record state p k ≡ read_record state q k
  unfolding read_record
  same_slot-read p q k h = ground arith

  gone_read :
      (p : Pending) (k : RecordKey) → get k p.records ≡ some none → read_record state p k ≡ none
  unfolding read_record
  gone_read p k h = ground arith

  vacant_read :
      (p : Pending) (k : RecordKey)
      → get k p.records ≡ none
      → get k state.records ≡ none
      → read_record state p k ≡ none
  unfolding read_record
  vacant_read p k h g = ground arith

  deleted_range :
      (t : MemoryTxn) (store : ℕ) (range : EncodedRange) (k : RecordKey)
      → let committed = retain (in_range store range) (keys state.records) in
        let pending_keys = retain (in_range store range) (keys t.pending.records) in
        read_record state
          (delete_pending committed pending_keys (delete_committed state committed t 0)).0.pending
          k
        ≡ (if in_range store range k then none else read_record state t.pending k)
  deleted_range t store range k =
      let committed = retain (in_range store range) (keys state.records) in
      let pending_keys = retain (in_range store range) (keys t.pending.records) in
      let r = delete_committed state committed t 0 in
      let u = (delete_pending committed pending_keys r).0 in
      let c = contains_key-retain (in_range store range) state.records k in
      let d = contains_key-retain (in_range store range) t.pending.records k in
      let g = delete_committed-get committed t 0 k in
      elim (Bool-cases (in_range store range k)) [
        | inr e ↦ rw e (
            same_slot-read u.pending t.pending k (
              delete_pending-get committed pending_keys r k (λ h. ground (arith, d))
              ∙ ground (arith, c, g)))
        | inl e ↦ rw e (elim (Bool-cases (contains_key committed k)) [
          | inl f ↦
              gone_read u.pending k
                (delete_pending-get committed pending_keys r k (λ h. f) ∙ ground (arith, g))
          | inr f ↦
              delete_pending-read committed pending_keys r k (ground (arith, c)) f
              ∙ ground (
                arith,
                d,
                vacant_read t.pending k,
                same_slot-read r.0.pending t.pending k (ground (arith, g)),
                c,
              )
        ])
      ]

  -- Whatever the pending data: when the transaction's scope or its mode refuses the call, a range
  -- deletion gives that guard's error and changes nothing; when both allow it, it succeeds, and after
  -- it every read of a key of the store in the range finds nothing, and of any other key what it found.
  pub delete_range_reads :
      (t : MemoryTxn) (store : ℕ) (range : EncodedRange)
      → let (u, r) = delete_range state t store range in
        let guards = check_scope t store >> check_readwrite t in
        ((e : BackendError) × (guards ≡ err e) × (r ≡ err e) × (u ≡ t))
        ⊎ ((n : ℕ) × (guards ≡ ok tt)
            × (r ≡ ok n)
            × ((k : RecordKey)
                → read_record state u.pending k
                  ≡ (if in_range store range k then none else read_record state t.pending k)))
  unfolding delete_range
  delete_range_reads t store range =
      elim (Result-cases (check_scope t store >> check_readwrite t)) [
        | inl (a, h) ↦ rw h (inr (_, refl, refl, λ k. deleted_range t store range k))
        | inr (e, h) ↦ rw h (inl (e, refl, refl, refl))
      ]
