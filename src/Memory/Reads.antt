-- ===== src/Memory/Reads.antt =====
-- What the writes of crates/boa_idb_memory/src/txn.rs mean for the reads of the same transaction.

use indexed_db_boa.Base.{
  ℕ, ◌⊎◌, ◌≡◌, refl, ap, ◌∙◌, Bool, true, false, ◌&&◌, List, [], ◌∷◌, ◌++◌, Option, none, some,
  retain, ok, err, ◌>>◌, if◌then◌else◌, arith, Result-cases, inl, inr, Bool-cases, any-append, ◌||◌,
}
use indexed_db_boa.Base.Map.{Map, get, same, same_iff, keys, get-insert}
use indexed_db_boa.Backend.{BackendError, constraint}
use indexed_db_boa.Memory.{
  RecordKey, StorageState, Pending, MemoryTxn, check_scope, check_readwrite, read_record,
  record_exists, is_some, record_ord,
}
use indexed_db_boa.Memory.Txn.{
  write_record, put, contains_key, in_store, add_keys, clear_keys, clear,
}

pub contains_key-retain {ℓ} :
    {V : Type ℓ} (p : RecordKey → Bool) (m : Map RecordKey V) (k : RecordKey)
    → contains_key (retain p (keys m)) k ≡ (p k && is_some (get k m))
unfolding get
contains_key-retain p [] k = ground arith
contains_key-retain p ((j, v) ∷ m) k = elim (Bool-cases (same j k)) [
  | inl h ↦ ground (arith, ap p ((same_iff j k).0 h), contains_key-retain p m k)
  | inr h ↦ ground (arith, contains_key-retain p m k)
]

add_keys-contains :
    (ks more : List RecordKey) (k : RecordKey)
    → contains_key (add_keys ks more) k ≡ (contains_key ks k || contains_key more k)
unfolding add_keys
add_keys-contains ks [] k = ground arith
add_keys-contains ks (key ∷ more) k = elim (Bool-cases (contains_key ks key)) [
  | inl h ↦ elim (Bool-cases (same key k)) [
    | inl e ↦
        ground (arith, add_keys-contains ks more k, ap (contains_key ks) ((same_iff key k).0 e))
    | inr e ↦ ground (arith, add_keys-contains ks more k)
  ]
  | inr h ↦
      ground
        (arith, add_keys-contains (ks ++ key ∷ []) more k, any-append (λ j. same j k) ks (key ∷ []))
]

module _ (state : StorageState) where
  pub write_record-read :
      (key : RecordKey) (val : Option (List ℕ)) (t : MemoryTxn) (k : RecordKey)
      → read_record state (write_record key val t).pending k
        ≡ (if same key k then val else read_record state t.pending k)
  unfolding read_record write_record
  write_record-read key val t k = ground (arith, get-insert k key val t.pending.records)

  pub write_record-get :
      (key : RecordKey) (val : Option (List ℕ)) (t : MemoryTxn) (k : RecordKey)
      → get k (write_record key val t).pending.records
        ≡ (if same key k then some val else get k t.pending.records)
  unfolding write_record
  write_record-get key val t k = get-insert k key val t.pending.records

  clear_keys-read :
      (ks : List RecordKey) (t : MemoryTxn) (k : RecordKey)
      → read_record state (clear_keys ks t).pending k
        ≡ (if contains_key ks k then none else read_record state t.pending k)
  unfolding clear_keys
  clear_keys-read [] t k = refl
  clear_keys-read (key ∷ ks) t k =
      ground (arith, clear_keys-read ks (write_record key none t) k, write_record-read key none t k)

  cleared :
      (t : MemoryTxn) (store : ℕ) (k : RecordKey)
      → read_record state
          (clear_keys
            (add_keys
              (retain (in_store store) (keys state.records))
              (retain (in_store store) (keys t.pending.records)))
            t).pending
          k
        ≡ (if in_store store k then none else read_record state t.pending k)
  unfolding read_record
  cleared t store k =
      let committed = retain (in_store store) (keys state.records) in
      let more = retain (in_store store) (keys t.pending.records) in
      clear_keys-read (add_keys committed more) t k
      ∙ ground (
        arith,
        add_keys-contains committed more k,
        contains_key-retain (in_store store) state.records k,
        contains_key-retain (in_store store) t.pending.records k,
      )

  record_exists-read :
      (p : Pending) (k : RecordKey) → record_exists state p k ≡ is_some (read_record state p k)
  unfolding record_exists read_record
  record_exists-read p k = ground arith

  -- Clearing a store either fails a guard and changes nothing, or after it every read of a key of the
  -- store finds nothing, and of any other key what it found.
  pub clear_reads :
      (t : MemoryTxn) (store : ℕ)
      → let (u, r) = clear state t store in
        ((e : BackendError) × (r ≡ err e) × (u ≡ t))
        ⊎ ((r ≡ ok tt)
            × ((k : RecordKey)
                → read_record state u.pending k
                  ≡ (if in_store store k then none else read_record state t.pending k)))
  unfolding clear
  clear_reads t store = elim (Result-cases (check_scope t store >> check_readwrite t)) [
    | inl (a, h) ↦ rw h (inr (refl, λ k. cleared t store k))
    | inr (e, h) ↦ rw h (inl (e, refl, refl))
  ]

  -- A put with its guards met: with `no_overwrite` and a record that reads can see it is a constraint
  -- error that changes nothing; otherwise every later read of the key finds the value, and of any
  -- other key what it found.
  pub put_reads :
      (t : MemoryTxn) (store : ℕ) (key val : List ℕ) (no_overwrite : Bool)
      → check_scope t store ≡ ok tt
      → check_readwrite t ≡ ok tt
      → let (u, r) = put state t store key val no_overwrite in
        (((no_overwrite && is_some (read_record state t.pending (store, key))) ≡ true)
          × (r ≡ err constraint)
          × (u ≡ t))
        ⊎ (((no_overwrite && is_some (read_record state t.pending (store, key))) ≡ false)
            × (r ≡ ok tt)
            × ((k : RecordKey)
                → read_record state u.pending k
                  ≡ (if same (store, key) k then some val else read_record state t.pending k)))
  unfolding put
  put_reads t store key val no_overwrite h g =
      rw (h, g, record_exists-read t.pending (store, key))
        (elim (Bool-cases (no_overwrite && is_some (read_record state t.pending (store, key)))) [
          | inl e ↦ rw e (inl (refl, refl, refl))
          | inr e ↦ rw e (inr (refl, refl, write_record-read (store, key) (some val) t))
        ])
