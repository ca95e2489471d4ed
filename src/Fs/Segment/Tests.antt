-- ===== src/Fs/Segment/Tests.antt =====
-- A segment and a manifest at concrete states, over maps as sorted lists of entries.
use indexed_db_boa.Backend.{DatabaseMeta}
use indexed_db_boa.Memory.{RecordKey, IndexKey, record_ord, index_ord}
use indexed_db_boa.Fs.State.{PersistMap, DbState}
use indexed_db_boa.Fs.Segment.{encode_segment}
use indexed_db_boa.Fs.Manifest.{ManifestData, encode_manifest, decode_manifest}
use indexed_db_boa.Fs.Manifest.RoundTrip.{decode_manifest-encode_manifest}
use indexed_db_boa.Base.{ℕ, ◌≡◌, List, [], ◌∷◌, some, none, ok, value_or, arith}
use indexed_db_boa.Base.Map.{Map, insert, remove}

abbrev record_map : PersistMap (Map RecordKey (List ℕ)) RecordKey (List ℕ)
record_map = record { insert_mut = insert; remove_mut = remove; empty_map = []; entries = λ m. m }

abbrev index_map : PersistMap (Map IndexKey (Unit {0})) IndexKey (Unit {0})
index_map = record { insert_mut = insert; remove_mut = remove; empty_map = []; entries = λ m. m }

abbrev db : DatabaseMeta
db = record { name = 0x64 ∷ []; version = 2; stores = []; next_store_id = 1; next_index_id = 1 }

abbrev state : DbState (Map RecordKey (List ℕ)) (Map IndexKey (Unit {0}))
state = record {
  db_meta = some db;
  records = ((1, 0x10 ∷ []), 9 ∷ []) ∷ ((1, 0x11 ∷ []), 8 ∷ 7 ∷ []) ∷ [];
  index_entries = ((1, (0x20 ∷ [], 0x11 ∷ [])), tt) ∷ [];
  key_generators = (1, 0x3FF0_0000_0000_0000) ∷ (2, 0x4000_0000_0000_0000) ∷ [];
  next_txn_seq = 9;
  manifest_seq = 1;
  wal_seq = 1;
  wal_bytes_since_compact = 0;
  wal_frames_since_compact = 0;
}

abbrev fresh : DbState (Map RecordKey (List ℕ)) (Map IndexKey (Unit {0}))
fresh = record {
  db_meta = none;
  records = [];
  index_entries = [];
  key_generators = [];
  next_txn_seq = 1;
  manifest_seq = 4;
  wal_seq = 3;
  wal_bytes_since_compact = 0;
  wal_frames_since_compact = 0;
}

abbrev segment : List ℕ
segment = value_or [] (encode_segment record_map index_map 3 state)

abbrev manifest : ManifestData
manifest = record { manifest_seq = 4; wal_seq = 3; segments = 2 ∷ 7 ∷ [] }

decode_manifest-encode_manifest_example : decode_manifest (encode_manifest manifest) ≡ ok manifest
decode_manifest-encode_manifest_example =
    decode_manifest-encode_manifest manifest
      (omega arith, omega arith, omega arith, (omega arith, (omega arith, tt)))
