-- ===== src/Fs/Commit.antt =====
-- What a transaction on files commits: the operations it logs and what it does to the state,
-- crates/boa_idb_fs/src/txn.rs. Of FsTxn the mode, the metadata and the pending changes; of `commit`
-- what it does when the operations on files succeed, up to the compaction of the log.
pub mod Replay
pub mod Frames
pub mod Durable
mod Tests
use Prim.Native.Nat.{min}
use indexed_db_boa.Engine.{TxnMode, is_read_only}
use indexed_db_boa.Backend.{StoreMeta, DatabaseMeta, BackendError, quota_exceeded, internal}
use indexed_db_boa.Fs.Wal.Pack.{encode_txn_frames_limited}
use indexed_db_boa.Memory.{RecordKey, IndexKey}
use indexed_db_boa.Fs.Wal.{
  CodecError, torn, bad_magic, bad_crc, payload_too_large, malformed, WalOp, put, delete, index_put,
  index_delete, key_gen_set, meta_replace,
}
use indexed_db_boa.Fs.Meta.{encode_meta}
use indexed_db_boa.Fs.State.{PersistMap, DbState, saturating_suc, set_key_gen}
use indexed_db_boa.Base.{
  ℕ, Bool, true, false, not, ◌||◌, List, [], ◌∷◌, ◌++◌, Option, none, some, ◌==◌, length,
  if◌then◌else◌, Result, ok, err, concat, ◌>>=◌, ◌+◌, ◌-◌, ◌^◌,
}
use indexed_db_boa.Base.Lex.{store_ord}
use indexed_db_boa.Base.Map.{Map, insert}

pub record FsTxn : Type 0 where
  pub mode : TxnMode
  pub db_meta : DatabaseMeta
  pub schema_dirty : Bool
  pub pending_records : Map RecordKey (Option (List ℕ))
  pub pending_index_entries : Map IndexKey Bool
  pub pending_key_generators : Map ℕ ℕ

-- The loops of `build_commit_payload`.
unfoldable pub record_ops : Map RecordKey (Option (List ℕ)) → List WalOp
record_ops [] = []
record_ops (((store, key), some val) ∷ m) = put store key val ∷ record_ops m
record_ops (((store, key), none) ∷ m) = delete store key ∷ record_ops m

unfoldable pub index_ops : Map IndexKey Bool → List WalOp
index_ops [] = []
index_ops (((index, (ik, pk)), true) ∷ m) = index_put index ik pk ∷ index_ops m
index_ops (((index, (ik, pk)), false) ∷ m) = index_delete index ik pk ∷ index_ops m

unfoldable pub key_gen_ops : Map ℕ ℕ → List WalOp
key_gen_ops [] = []
key_gen_ops ((store, value) ∷ m) = key_gen_set store value ∷ key_gen_ops m

unfoldable pub set_key_gens : Map ℕ ℕ → List StoreMeta → List StoreMeta
set_key_gens [] stores = stores
set_key_gens ((store, value) ∷ m) stores = set_key_gens m (set_key_gen store value stores)

-- The metadata that the transaction commits.
unfoldable pub commit_meta : FsTxn → DatabaseMeta
commit_meta t = record t.db_meta { stores = set_key_gens t.pending_key_generators t.db_meta.stores }

unfoldable pub is_dirty : FsTxn → Bool
is_dirty t = t.schema_dirty || not (length t.pending_key_generators == 0)

unfoldable pub commit_ops : FsTxn → List WalOp
commit_ops t =
    let meta_ops = if is_dirty t then meta_replace (encode_meta (commit_meta t)) ∷ [] else [] in
    record_ops t.pending_records
    ++ (index_ops t.pending_index_entries ++ (key_gen_ops t.pending_key_generators ++ meta_ops))

unfoldable pub build_commit_payload : FsTxn → List WalOp × (DatabaseMeta × Bool)
build_commit_payload t = (commit_ops t, (commit_meta t, is_dirty t))

module _ {R E : Type 0} (rm : PersistMap R RecordKey (List ℕ))
    (em : PersistMap E IndexKey (Unit {0})) where
  unfoldable pub apply_records : Map RecordKey (Option (List ℕ)) → R → R
  apply_records [] records = records
  apply_records ((key, some val) ∷ m) records = apply_records m (rm.insert_mut key val records)
  apply_records ((key, none) ∷ m) records = apply_records m (rm.remove_mut key records)

  unfoldable pub apply_entries : Map IndexKey Bool → E → E
  apply_entries [] entries = entries
  apply_entries ((key, true) ∷ m) entries = apply_entries m (em.insert_mut key tt entries)
  apply_entries ((key, false) ∷ m) entries = apply_entries m (em.remove_mut key entries)

  unfoldable pub apply_generators : Map ℕ ℕ → Map ℕ ℕ → Map ℕ ℕ
  apply_generators [] generators = generators
  apply_generators ((store, value) ∷ m) generators =
      apply_generators m (insert store value generators)

  unfoldable pub apply_pending_to_state :
      FsTxn → DatabaseMeta → ℕ → Bool → DbState R E → DbState R E
  apply_pending_to_state t db txn_seq bump_seq s = record s {
    next_txn_seq = if bump_seq then saturating_suc txn_seq else s.next_txn_seq;
    records = apply_records t.pending_records s.records;
    index_entries = apply_entries t.pending_index_entries s.index_entries;
    key_generators = apply_generators t.pending_key_generators s.key_generators;
    db_meta = some db;
  }

-- The error of `commit` for one of the encoder, under the limit `max`.
unfoldable pub encode_error : ℕ → CodecError → BackendError
encode_error max (payload_too_large needed) = quota_exceeded needed max
encode_error max torn = internal
encode_error max (bad_magic n) = internal
encode_error max (bad_crc expected actual) = internal
encode_error max (malformed d) = internal

-- The frames that `commit` appends to the log.
unfoldable pub commit_frames : ℕ → List WalOp → ℕ → Result BackendError (List (List ℕ))
commit_frames txn_seq ops max =
    if length ops == 0 then ok [] else elim (encode_txn_frames_limited txn_seq ops max) [
      | ok frames ↦ ok frames
      | err e ↦ err (encode_error max e)
    ]

-- `saturating_add` on u64.
unfoldable pub saturating_add : ℕ → ℕ → ℕ
saturating_add a b = min (a + b) (2 ^ 64 - 1)

-- What the state's log counters become when a transaction appended so many bytes.
unfoldable pub count_appended : {R E : Type 0} → ℕ → DbState R E → DbState R E
count_appended appended s = record s {
  wal_bytes_since_compact = saturating_add s.wal_bytes_since_compact appended;
  wal_frames_since_compact = saturating_add s.wal_frames_since_compact 1;
}

-- `commit` where every operation on files succeeds, up to the call of `maybe_compact`: the frames it
-- appends to the log and the state it leaves.
unfoldable pub commit_before_compact :
    {R E : Type 0}
    → PersistMap R RecordKey (List ℕ)
    → PersistMap E IndexKey (Unit {0})
    → FsTxn
    → ℕ
    → DbState R E
    → Result BackendError (List (List ℕ) × DbState R E)
commit_before_compact rm em t max s =
    if is_read_only t.mode
    then ok ([], s)
    else let (ops, (meta, schema_dirty)) = build_commit_payload t in
      let empty = length ops == 0 in
      let txn_seq = s.next_txn_seq in
      do
        frames ← commit_frames txn_seq ops max
        let u = apply_pending_to_state rm em t meta txn_seq (not empty) s
        ok (frames, if empty then u else count_appended (length (concat frames)) u)
