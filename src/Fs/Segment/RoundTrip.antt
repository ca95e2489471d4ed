-- ===== src/Fs/Segment/RoundTrip.antt =====
-- What crates/boa_idb_fs/src/segment.rs writes of a state, it reads back.
use indexed_db_boa.Clone.Crc.{crc32c, crc32c-IsU32}
use indexed_db_boa.Backend.{DatabaseMeta}
use indexed_db_boa.Memory.{RecordKey, IndexKey}
use indexed_db_boa.Fs.Wal.{le_bytes}
use indexed_db_boa.Fs.Wal.Varints.{length-le_bytes, from_le_bytes-le_bytes}
use indexed_db_boa.Fs.Meta.{encode_vec, encode_meta, read_vec}
use indexed_db_boa.Fs.Meta.RoundTrip.{
  Reads, IsMeta, read_take-append, read_word-le_bytes, read_vec-encode_vec, decode_meta-encode_meta,
}
use indexed_db_boa.Fs.State.{PersistMap, DbState}
use indexed_db_boa.Fs.Segment.{
  seg_magic, seg_version, seal, checked_body, write_sized, read_sized, write_segment_record,
  read_segment_record, write_index_key, read_index_key, write_generator, read_generator, insert_all,
  insert_generators, encode_body, decode_state, decode_segment,
}
use indexed_db_boa.Base.{
  ℕ, ◌+◌, ◌-◌, ◌%◌, ◌^◌, ◌<◌, ◌≤◌, ◌≡◌, refl, true, false, List, [], ◌++◌, append_assoc, append-nil,
  some, ok, ltb, ◌==◌, length, take, drop, take-append, drop-append, length-append, All, arith,
}

pub length-seal : (body : List ℕ) → length (seal body) ≡ length body + 4
unfolding seal
length-seal body =
    omega (arith, length-append body (le_bytes 4 (crc32c body)), length-le_bytes 4 (crc32c body))

-- A checksum that was written is right.
pub checked_body-seal : (body : List ℕ) → checked_body (seal body) ≡ ok body
unfolding checked_body
checked_body-seal body =
    let c = le_bytes 4 (crc32c body) in
    let n : length (seal body) - 4 ≡ length body = omega (arith, length-seal body) in
    let t : take (length body) (seal body) ≡ body = unfold seal in take-append body c in
    let d : drop (length body) (seal body) ≡ c = unfold seal in drop-append body c in
    let e : (crc32c body == crc32c body) ≡ true = ground arith in
    rw (n, t, d, from_le_bytes-le_bytes 4 (crc32c body) (crc32c-IsU32 body), e) refl

-- A length that a u32 holds.
abbrev pub IsSized : List ℕ → Type 0
IsSized bytes = length bytes < 2 ^ 32

read_sized-write_sized :
    (bytes : List ℕ) → IsSized bytes → Reads read_sized (write_sized bytes) bytes
unfolding read_sized write_sized
read_sized-write_sized bytes h rest =
    let e : length bytes % 2 ^ 32 ≡ length bytes = omega arith in
    rw (e, append_assoc, read_word-le_bytes 4 (length bytes) (omega arith) (bytes ++ rest))
      (read_take-append (length bytes) bytes refl rest)

abbrev pub IsRecord : RecordKey × List ℕ → Type 0
IsRecord e = e.0.0 < 2 ^ 64 × IsSized e.0.1 × IsSized e.1

read_record-write_record :
    (e : RecordKey × List ℕ) → IsRecord e → Reads read_segment_record (write_segment_record e) e
unfolding read_segment_record write_segment_record
read_record-write_record e h rest =
    rw
      (
        append_assoc,
        read_word-le_bytes 8 e.0.0 h.0,
        append_assoc,
        read_sized-write_sized e.0.1 h.1,
        read_sized-write_sized e.1 h.2,
      )
      refl

abbrev pub IsEntry : IndexKey × Unit {0} → Type 0
IsEntry e = e.0.0 < 2 ^ 64 × IsSized e.0.1.0 × IsSized e.0.1.1

read_index_key-write_index_key :
    (e : IndexKey × Unit {0}) → IsEntry e → Reads read_index_key (write_index_key e) e
unfolding read_index_key write_index_key
read_index_key-write_index_key ((index, (ik, pk)), tt) h rest =
    rw
      (
        append_assoc,
        read_word-le_bytes 8 index h.0,
        append_assoc,
        read_sized-write_sized ik h.1,
        read_sized-write_sized pk h.2,
      )
      refl

abbrev pub IsGenerator : ℕ × ℕ → Type 0
IsGenerator e = e.0 < 2 ^ 64 × (e.1 < 2 ^ 64)

read_generator-write_generator :
    (e : ℕ × ℕ) → IsGenerator e → Reads read_generator (write_generator e) e
unfolding read_generator write_generator
read_generator-write_generator e h rest =
    rw (append_assoc, read_word-le_bytes 8 e.0 h.0, read_word-le_bytes 8 e.1 h.1) refl

-- A vector whose length and elements fit in the words that hold them.
abbrev pub IsVec : {A : Type 0} → (A → Type 0) → List A → Type 0
IsVec Good xs = length xs < 2 ^ 32 × All Good xs

module _ {R E : Type 0} (rm : PersistMap R RecordKey (List ℕ))
    (em : PersistMap E IndexKey (Unit {0})) where
  -- Numbers and lengths fit in the words that hold them.
  abbrev pub IsState : ℕ → DatabaseMeta → DbState R E → Type 0
  IsState seq db s =
      seq < 2 ^ 64
      × (s.next_txn_seq < 2 ^ 64)
      × IsMeta db
      × IsSized (encode_meta db)
      × IsVec IsRecord (rm.entries s.records)
      × IsVec IsEntry (em.entries s.index_entries)
      × IsVec IsGenerator s.key_generators

  -- A map is what inserting its own entries into an empty one builds.
  abbrev pub Rebuilds : DbState R E → Type 0
  Rebuilds s =
      insert_all rm (rm.entries s.records) rm.empty_map ≡ s.records
      × (insert_all em (em.entries s.index_entries) em.empty_map ≡ s.index_entries)
      × (insert_generators s.key_generators [] ≡ s.key_generators)

  -- The state that is loaded: what a segment holds, and the rest of the state it is loaded into.
  abbrev pub loaded : DatabaseMeta → DbState R E → DbState R E → DbState R E
  loaded db s into = record into {
    db_meta = some db;
    records = s.records;
    index_entries = s.index_entries;
    key_generators = s.key_generators;
    next_txn_seq = s.next_txn_seq;
  }

  long_enough :
      (seq : ℕ) (bytes : List ℕ) (s : DbState R E) → 28 ≤ length (encode_body rm em seq bytes s)
  unfolding encode_body write_sized
  long_enough seq bytes s =
      rw
        (
          length-append, length-le_bytes, length-append, length-le_bytes, length-append,
          length-le_bytes, length-append, length-le_bytes, length-append, length-append,
          length-le_bytes,
        )
        (omega arith)

  decode_body :
      (seq : ℕ) (db : DatabaseMeta) (s into : DbState R E)
      → IsState seq db s
      → Rebuilds s
      → decode_segment rm em (seal (encode_body rm em seq (encode_meta db) s)) into
        ≡ ok (seq, loaded db s into)
  unfolding decode_segment decode_state
  decode_body seq db s into h b =
      let body = encode_body rm em seq (encode_meta db) s in
      let l : ltb (length (seal body)) 32 ≡ false =
        ground (arith, length-seal body, long_enough seq (encode_meta db) s) in
      let generators : read_vec read_generator (encode_vec write_generator s.key_generators)
          ≡ ok (s.key_generators, []) =
        rw append-nil at (
          read_vec-encode_vec write_generator read_generator IsGenerator
            read_generator-write_generator s.key_generators h.6.0 h.6.1 []) in
      rw (l, checked_body-seal body)
        (unfold encode_body in
          rw
            (
              read_word-le_bytes 4 seg_magic (omega arith),
              read_word-le_bytes 4 seg_version (omega arith),
              read_word-le_bytes 8 seq h.0,
              read_word-le_bytes 8 s.next_txn_seq h.1,
              read_sized-write_sized (encode_meta db) h.3,
              decode_meta-encode_meta db h.2,
              read_vec-encode_vec write_segment_record read_segment_record IsRecord
                  read_record-write_record (rm.entries s.records) h.4.0 h.4.1,
              read_vec-encode_vec write_index_key read_index_key IsEntry
                  read_index_key-write_index_key (em.entries s.index_entries) h.5.0 h.5.1,
              generators,
              b.0,
              b.1,
              b.2,
            )
            refl)
