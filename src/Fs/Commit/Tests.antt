-- ===== src/Fs/Commit/Tests.antt =====
-- A commit on files at a concrete transaction, over maps as sorted lists of entries.
use indexed_db_boa.Backend.{single, StoreMeta, DatabaseMeta}
use indexed_db_boa.Memory.{RecordKey, IndexKey, record_ord, index_ord}
use indexed_db_boa.Fs.Wal.{
  le_bytes, write_loop, write_varint, write_bytes, encode_op, encode_ops, encode_payload,
  frame_header, encode_frame_limited, max_frame_payload,
}
use indexed_db_boa.Fs.Wal.Pack.{
  varint_len_loop, varint_len, bytes_len, op_encoded_len, pack_op, pack_ops, finish_groups,
  group_ops, txn_frames, encode_frames, encode_txn_frames_limited,
}
use indexed_db_boa.Fs.Wal.Recover.Log.{IsTxn}
use indexed_db_boa.Fs.Meta.{
  encode_all, encode_vec, write_utf16, encode_bool, encode_key_path, encode_store, encode_meta,
  decode_meta,
}
use indexed_db_boa.Fs.Meta.RoundTrip.{IsMeta, decode_meta-encode_meta}
use indexed_db_boa.Fs.State.{PersistMap, DbState, set_key_gen}
use indexed_db_boa.Fs.Commit.{
  FsTxn, record_ops, index_ops, key_gen_ops, set_key_gens, commit_meta, is_dirty, commit_ops,
  apply_pending_to_state, count_appended, commit_before_compact, build_commit_payload,
  commit_frames,
}
use indexed_db_boa.Engine.{read_write}
use indexed_db_boa.Fs.Commit.Durable.{commit-recover, Recovers, Refuses}
use indexed_db_boa.Base.{
  ◌⊎◌, ℕ, ◌≡◌, refl, true, false, not, List, [], ◌∷◌, ◌==◌, some, none, ok, value_or, length,
  concat, arith,
}
use indexed_db_boa.Base.Map.{Map, insert, remove}

abbrev record_map : PersistMap (Map RecordKey (List ℕ)) RecordKey (List ℕ)
record_map = record { insert_mut = insert; remove_mut = remove; empty_map = []; entries = λ m. m }

abbrev index_map : PersistMap (Map IndexKey (Unit {0})) IndexKey (Unit {0})
index_map = record { insert_mut = insert; remove_mut = remove; empty_map = []; entries = λ m. m }

abbrev store : StoreMeta
store = record {
  id = 1;
  name = 0x73 ∷ [];
  key_path = single (0x69 ∷ []);
  auto_increment = true;
  key_gen = 0x3FF0_0000_0000_0000;
  indexes = [];
  deleted = false;
}

abbrev db : DatabaseMeta
db = record {
  name = 0x64 ∷ [];
  version = 1;
  stores = store ∷ [];
  next_store_id = 2;
  next_index_id = 1;
}

-- One record is put and one deleted, an index entry goes, and the generator moves on.
abbrev txn : FsTxn
txn = record {
  mode = read_write;
  db_meta = db;
  schema_dirty = false;
  pending_records = ((1, 0x10 ∷ []), some (7 ∷ [])) ∷ ((1, 0x11 ∷ []), none) ∷ [];
  pending_index_entries = ((1, (0x20 ∷ [], 0x11 ∷ [])), false) ∷ [];
  pending_key_generators = (1, 0x4000_0000_0000_0000) ∷ [];
}

abbrev state : DbState (Map RecordKey (List ℕ)) (Map IndexKey (Unit {0}))
state = record {
  db_meta = some db;
  records = ((1, 0x11 ∷ []), 9 ∷ []) ∷ [];
  index_entries = ((1, (0x20 ∷ [], 0x11 ∷ [])), tt) ∷ [];
  key_generators = (1, 0x3FF0_0000_0000_0000) ∷ [];
  next_txn_seq = 5;
  manifest_seq = 1;
  wal_seq = 1;
  wal_bytes_since_compact = 0;
  wal_frames_since_compact = 0;
}

abbrev frames : List (List ℕ)
frames = value_or [] (encode_txn_frames_limited 5 (commit_ops txn) max_frame_payload)

db_ok : IsMeta db
db_ok = (
  (omega arith, (omega arith, tt)),
  omega arith,
  omega arith,
  omega arith,
  omega arith,
  (
    (
      omega arith,
      (omega arith, (omega arith, tt)),
      (omega arith, (omega arith, tt)),
      omega arith,
      omega arith,
      tt,
    ),
    tt,
  ),
)

decode_meta-encode_meta_example : decode_meta (encode_meta db) ≡ ok db
decode_meta-encode_meta_example = decode_meta-encode_meta db db_ok

commit_meta_ok : IsMeta (commit_meta txn)
unfolding commit_meta set_key_gens set_key_gen
commit_meta_ok = (
  (omega arith, (omega arith, tt)),
  omega arith,
  omega arith,
  omega arith,
  omega arith,
  (
    (
      omega arith,
      (omega arith, (omega arith, tt)),
      (omega arith, (omega arith, tt)),
      omega arith,
      omega arith,
      tt,
    ),
    tt,
  ),
)

meta_size : length (encode_meta (commit_meta txn)) ≡ 77
unfolding commit_meta set_key_gens set_key_gen le_bytes encode_all encode_vec write_utf16
    encode_bool encode_key_path encode_store encode_meta
meta_size = refl

txn_ok : IsTxn (5, commit_ops txn)
unfolding record_ops index_ops key_gen_ops is_dirty commit_ops
txn_ok = (
  omega arith,
  omega arith,
  (
    (omega arith, omega arith, omega arith),
    (
      (omega arith, omega arith),
      (
        (omega arith, omega arith, omega arith),
        ((omega arith, omega arith), (omega (arith, meta_size), tt)),
      ),
    ),
  ),
)

frames_ok : encode_txn_frames_limited 5 (commit_ops txn) max_frame_payload ≡ ok frames
unfolding record_ops index_ops key_gen_ops is_dirty commit_ops commit_meta set_key_gens set_key_gen
    encode_all encode_vec write_utf16 encode_bool encode_key_path encode_store encode_meta le_bytes
    write_loop write_varint write_bytes encode_op encode_ops encode_payload frame_header
    encode_frame_limited varint_len_loop varint_len bytes_len op_encoded_len pack_op pack_ops
    finish_groups group_ops txn_frames encode_frames encode_txn_frames_limited
frames_ok = refl

commit-recover_example :
    Recovers record_map index_map txn max_frame_payload state
    ⊎ Refuses record_map index_map txn max_frame_payload state
commit-recover_example =
    commit-recover record_map index_map txn state max_frame_payload (omega arith) commit_meta_ok
      (λ e. refl) txn_ok

-- The same commit succeeds.
abbrev left : DbState (Map RecordKey (List ℕ)) (Map IndexKey (Unit {0}))
left = count_appended (length (concat frames)) (
    apply_pending_to_state record_map index_map txn (commit_meta txn) 5
      (not (length (commit_ops txn) == 0)) state)

commits : commit_before_compact record_map index_map txn max_frame_payload state ≡ ok (frames, left)
unfolding commit_before_compact build_commit_payload commit_frames commit_ops record_ops index_ops
    key_gen_ops is_dirty
commits = rw frames_ok refl
