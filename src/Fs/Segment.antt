-- ===== src/Fs/Segment.antt =====
-- The snapshot of a state in a segment file: crates/boa_idb_fs/src/segment.rs, whose reader is that of
-- meta.rs. When a segment cannot be read, opening the database fails and drops the state, so an error
-- leaves no state here.
pub mod RoundTrip
mod Tests
use indexed_db_boa.Clone.Crc.{crc32c}
use indexed_db_boa.Backend.{BackendError, corrupted, internal}
use indexed_db_boa.Memory.{RecordKey, IndexKey}
use indexed_db_boa.Fs.Wal.{le_bytes}
use indexed_db_boa.Fs.Wal.Decode.{from_le_bytes}
use indexed_db_boa.Fs.Meta.{encode_vec, encode_meta, read_take, read_word, read_vec, decode_meta}
use indexed_db_boa.Fs.State.{PersistMap, DbState}
use indexed_db_boa.Base.{
  ℕ, ◌+◌, ◌-◌, ◌%◌, ◌^◌, not, List, [], ◌∷◌, ◌++◌, Option, none, some, Result, ok, err, ◌>>=◌, ltb,
  ◌==◌, length, take, drop, if◌then◌else◌,
}
use indexed_db_boa.Base.Lex.{store_ord}
use indexed_db_boa.Base.Map.{Map, insert}

-- `SEG_MAGIC`, the bytes ISEG in little-endian order.
abbrev pub seg_magic : ℕ
seg_magic = 0x47455349

abbrev pub seg_version : ℕ
seg_version = 1

-- A body and its checksum.
unfoldable pub seal : List ℕ → List ℕ
seal body = body ++ le_bytes 4 (crc32c body)

-- The body in front of a checksum that is right.
unfoldable pub checked_body : List ℕ → Result BackendError (List ℕ)
checked_body bytes =
    let body = take (length bytes - 4) bytes in
    let expected = from_le_bytes (drop (length bytes - 4) bytes) in
    if not (expected == crc32c body) then err corrupted else ok body

-- `write_bytes` and `read_bytes`
unfoldable pub write_sized : List ℕ → List ℕ
write_sized bytes = le_bytes 4 (length bytes % 2 ^ 32) ++ bytes

unfoldable pub read_sized : List ℕ → Result BackendError (List ℕ × List ℕ)
read_sized r = read_word 4 r >>= λ (len, r'). read_take len r'

-- A record: its key and its value.
unfoldable pub write_segment_record : RecordKey × List ℕ → List ℕ
write_segment_record ((store, key), value) =
    le_bytes 8 store ++ (write_sized key ++ write_sized value)

unfoldable pub read_segment_record : List ℕ → Result BackendError ((RecordKey × List ℕ) × List ℕ)
read_segment_record r0 = read_word 8 r0 >>= (λ (store, r1).
    read_sized r1
    >>= (λ (key, r2). read_sized r2 >>= λ (value, r3). ok (((store, key), value), r3)))

unfoldable pub write_index_key : IndexKey × Unit {0} → List ℕ
write_index_key ((index, (idx_key, primary)), u) =
    le_bytes 8 index ++ (write_sized idx_key ++ write_sized primary)

unfoldable pub read_index_key : List ℕ → Result BackendError ((IndexKey × Unit {0}) × List ℕ)
read_index_key r0 = read_word 8 r0 >>= (λ (index, r1). read_sized r1 >>= (λ (idx_key, r2).
    read_sized r2 >>= λ (primary, r3). ok (((index, (idx_key, primary)), tt), r3)))

unfoldable pub write_generator : ℕ × ℕ → List ℕ
write_generator (store, value) = le_bytes 8 store ++ le_bytes 8 value

unfoldable pub read_generator : List ℕ → Result BackendError ((ℕ × ℕ) × List ℕ)
read_generator r0 =
    read_word 8 r0 >>= λ (store, r1). read_word 8 r1 >>= λ (bits, r2). ok ((store, bits), r2)

-- The loop that inserts what was read.
unfoldable pub insert_all : {M K V : Type 0} → PersistMap M K V → List (K × V) → M → M
insert_all p [] m = m
insert_all p ((k, v) ∷ es) m = insert_all p es (p.insert_mut k v m)

unfoldable pub insert_generators : List (ℕ × ℕ) → Map ℕ ℕ → Map ℕ ℕ
insert_generators [] m = m
insert_generators ((k, v) ∷ es) m = insert_generators es (insert k v m)

module _ {R E : Type 0} (rm : PersistMap R RecordKey (List ℕ))
    (em : PersistMap E IndexKey (Unit {0})) where
  unfoldable pub encode_body : ℕ → List ℕ → DbState R E → List ℕ
  encode_body seq meta_bytes s =
      le_bytes 4 seg_magic
      ++ (le_bytes 4 seg_version
          ++ (le_bytes 8 seq
              ++ (le_bytes 8 s.next_txn_seq
                  ++ (write_sized meta_bytes
                      ++ (encode_vec write_segment_record (rm.entries s.records)
                          ++ (encode_vec write_index_key (em.entries s.index_entries)
                              ++ encode_vec write_generator s.key_generators))))))

  unfoldable pub encode_segment : ℕ → DbState R E → Result BackendError (List ℕ)
  encode_segment seq s = elim s.db_meta [
    | none ↦ err internal
    | some db ↦ ok (seal (encode_body seq (encode_meta db) s))
  ]

  -- The body after magic and version.
  unfoldable pub decode_state :
      DbState R E → List ℕ → Result BackendError (ℕ × (DbState R E × List ℕ))
  decode_state s r0 = read_word 8 r0 >>= (λ (seq, r1). read_word 8 r1 >>= (λ (next_txn_seq, r2).
      read_sized r2 >>= (λ (meta_bytes, r3). decode_meta meta_bytes >>= (λ db.
        read_vec read_segment_record r3 >>= (λ (records, r4).
          read_vec read_index_key r4 >>= (λ (index_entries, r5).
            read_vec read_generator r5 >>= λ (generators, r6).
            let s' : DbState R E = record s {
              next_txn_seq = next_txn_seq;
              db_meta = some db;
              records = insert_all rm records rm.empty_map;
              index_entries = insert_all em index_entries em.empty_map;
              key_generators = insert_generators generators [];
            } in
            ok (seq, (s', r6))))))))

  unfoldable pub decode_segment : List ℕ → DbState R E → Result BackendError (ℕ × DbState R E)
  decode_segment bytes s =
      if ltb (length bytes) (4 + 4 + 8 + 8 + 4 + 4)
      then err corrupted
      else (checked_body bytes >>= (λ body. read_word 4 body >>= (λ (magic, r0).
          if not (magic == seg_magic)
          then err corrupted
          else (read_word 4 r0 >>= (λ (ver, r1).
              if not (ver == seg_version)
              then err corrupted
              else (decode_state s r1 >>= λ (seq, (s', rest)).
                  if not (length rest == 0) then err corrupted else ok (seq, s')))))))
