-- ===== src/Fs/State.antt =====
-- The state of an open database and the replay of recovered frames on it:
-- crates/boa_idb_fs/src/state.rs and apply.rs. The state's `segments`, which own files, are left out.
-- Its persistent maps are those of a library, so their operations are parameters; an f64 is its bits.
use Prim.Native.Nat.{max, min}
use indexed_db_boa.Backend.{StoreMeta, DatabaseMeta, BackendError}
use indexed_db_boa.Memory.{RecordKey, IndexKey}
use indexed_db_boa.Fs.Wal.{
  WalOp, put, delete, clear, index_put, index_delete, key_gen_set, meta_replace, WalFrame,
}
use indexed_db_boa.Fs.Meta.{decode_meta}
use indexed_db_boa.Base.{
  ℕ, ◌+◌, ◌-◌, ◌^◌, List, [], ◌∷◌, Option, none, some, Result, ok, ◌>>=◌, ◌==◌, if◌then◌else◌,
}
use indexed_db_boa.Base.Lex.{store_ord}
use indexed_db_boa.Base.Map.{Map, insert}

-- What the source uses of rpds' RedBlackTreeMap, for maps `M` from `K` to `V`.
pub record PersistMap (M K V : Type 0) : Type 0 where
  pub insert_mut : K → V → M → M
  pub remove_mut : K → M → M
  pub empty_map : M
  pub entries : M → List (K × V)

pub record DbState (R E : Type 0) : Type 0 where
  pub db_meta : Option DatabaseMeta
  pub records : R
  pub index_entries : E
  pub key_generators : Map ℕ ℕ
  pub next_txn_seq : ℕ
  pub manifest_seq : ℕ
  pub wal_seq : ℕ
  pub wal_bytes_since_compact : ℕ
  pub wal_frames_since_compact : ℕ

-- `saturating_add(1)` on u64.
unfoldable pub saturating_suc : ℕ → ℕ
saturating_suc n = min (n + 1) (2 ^ 64 - 1)

-- `find` the store and set its generator.
unfoldable pub set_key_gen : ℕ → ℕ → List StoreMeta → List StoreMeta
set_key_gen id val [] = []
set_key_gen id val (s ∷ stores) =
    let rest = set_key_gen id val stores in
    if s.id == id then record s { key_gen = val } ∷ stores else s ∷ rest

unfoldable pub set_meta_key_gen : ℕ → ℕ → Option DatabaseMeta → Option DatabaseMeta
set_meta_key_gen id val none = none
set_meta_key_gen id val (some db) = some (record db { stores = set_key_gen id val db.stores })

-- The end of a frame's replay.
unfoldable pub raise_txn_seq : {R E : Type 0} → ℕ → DbState R E → DbState R E
raise_txn_seq txn_seq s = record s { next_txn_seq = max s.next_txn_seq (saturating_suc txn_seq) }

module _ {R E : Type 0} (rm : PersistMap R RecordKey (List ℕ))
    (em : PersistMap E IndexKey (Unit {0})) where
  -- The removal of the keys of a store, of those listed.
  unfoldable pub clear_records : ℕ → List (RecordKey × List ℕ) → R → R
  clear_records store [] records = records
  clear_records store ((key, value) ∷ m) records =
      clear_records store m (if key.0 == store then rm.remove_mut key records else records)

  unfoldable pub apply_op : DbState R E → WalOp → Result BackendError (DbState R E)
  apply_op s (put store key value) =
      ok (record s { records = rm.insert_mut (store, key) value s.records })
  apply_op s (delete store key) = ok (record s { records = rm.remove_mut (store, key) s.records })
  apply_op s (clear store) =
      ok (record s { records = clear_records store (rm.entries s.records) s.records })
  apply_op s (index_put index idx_key primary_key) = ok (record s {
    index_entries = em.insert_mut (index, (idx_key, primary_key)) tt s.index_entries;
  })
  apply_op s (index_delete index idx_key primary_key) =
      ok
        (record s { index_entries = em.remove_mut (index, (idx_key, primary_key)) s.index_entries })
  apply_op s (key_gen_set store value_bits) = ok (record s {
    key_generators = insert store value_bits s.key_generators;
    db_meta = set_meta_key_gen store value_bits s.db_meta;
  })
  apply_op s (meta_replace bytes) = decode_meta bytes >>= λ db. ok (record s { db_meta = some db })

  -- The operations of a frame.
  unfoldable pub apply_ops : DbState R E → List WalOp → Result BackendError (DbState R E)
  apply_ops s [] = ok s
  apply_ops s (op ∷ ops) = apply_op s op >>= λ s'. apply_ops s' ops

  unfoldable pub apply_frames : DbState R E → List WalFrame → Result BackendError (DbState R E)
  apply_frames s [] = ok s
  apply_frames s (frame ∷ frames) =
      apply_ops s frame.ops >>= λ s'. apply_frames (raise_txn_seq frame.txn_seq s') frames
