-- ===== src/Fs/Wal/RoundTrip.antt =====
-- What the encoder of crates/boa_idb_fs/src/wal.rs writes, its decoder reads back.
use indexed_db_boa.Fs.Wal.{
  WalOp, put, delete, clear, index_put, index_delete, key_gen_set, meta_replace, le_bytes,
  write_varint, write_bytes, encode_op, encode_ops, encode_payload, frame_header, max_frame_payload,
  wal_magic,
}
use indexed_db_boa.Fs.Wal.Decode.{
  from_le_bytes, read_bytes, read_entry, read_key_gen, decode_op, decode_count, decode_ops,
  decode_body, decode_frame,
}
use indexed_db_boa.Fs.Wal.Varints.{
  read_varint-write_varint, length-le_bytes, from_le_bytes-le_bytes,
}
use indexed_db_boa.Base.{
  ℕ, suc, ◌+◌, ◌%◌, ◌^◌, ◌<◌, ◌≤◌, ◌≡◌, refl, ap, ◌∙◌, false, List, [], ◌∷◌, ◌++◌, append_assoc,
  append-nil, ok, ◌>>=◌, length, All, take, drop, take-append, drop-append, ltb, ◌==◌, arith,
  length-append,
}

-- The ids and the lengths of an operation are machine words.
abbrev pub IsOp : WalOp → Type 0
IsOp (put store key value) = store < 2 ^ 64 × (length key < 2 ^ 64) × (length value < 2 ^ 64)
IsOp (delete store key) = store < 2 ^ 64 × (length key < 2 ^ 64)
IsOp (clear store) = store < 2 ^ 64
IsOp (index_put index idx_key primary_key) =
    index < 2 ^ 64 × (length idx_key < 2 ^ 64) × (length primary_key < 2 ^ 64)
IsOp (index_delete index idx_key primary_key) =
    index < 2 ^ 64 × (length idx_key < 2 ^ 64) × (length primary_key < 2 ^ 64)
IsOp (key_gen_set store value_bits) = store < 2 ^ 64 × (value_bits < 2 ^ 64)
IsOp (meta_replace bytes) = length bytes < 2 ^ 64

read_bytes-write_bytes :
    (bytes rest : List ℕ)
    → length bytes < 2 ^ 64
    → read_bytes (write_bytes bytes ++ rest) ≡ ok (bytes, rest)
unfolding read_bytes write_bytes
read_bytes-write_bytes bytes rest h =
    let e : ltb (length (bytes ++ rest)) (length bytes) ≡ false =
      ground (arith, length-append bytes rest) in
    rw
      (
        append_assoc,
        read_varint-write_varint (length bytes) (bytes ++ rest) h,
        e,
        take-append,
        drop-append,
      )
      refl

read_entry-write :
    (op : ℕ → List ℕ → List ℕ → WalOp) (id : ℕ) (key value rest : List ℕ)
    → id < 2 ^ 64
    → length key < 2 ^ 64
    → length value < 2 ^ 64
    → read_entry op ((write_varint id ++ write_bytes key ++ write_bytes value) ++ rest)
      ≡ ok (op id key value, rest)
unfolding read_entry
read_entry-write op id key value rest hi hk hv =
    rw
      (
        append_assoc,
        append_assoc,
        read_varint-write_varint id (write_bytes key ++ (write_bytes value ++ rest)) hi,
        read_bytes-write_bytes key (write_bytes value ++ rest) hk,
        read_bytes-write_bytes value rest hv,
      )
      refl

decode_count-encode_op :
    (op : WalOp) (count : ℕ) (rest : List ℕ)
    → IsOp op
    → decode_count (suc count) (encode_op op ++ rest)
      ≡ (decode_count count rest >>= λ (ops, rest'). ok (op ∷ ops, rest'))
unfolding decode_count encode_op decode_op read_key_gen
decode_count-encode_op (put store key value) count rest h =
    rw (read_entry-write put store key value rest h.0 h.1 h.2) refl
decode_count-encode_op (delete store key) count rest h =
    rw
      (
        append_assoc,
        read_varint-write_varint store (write_bytes key ++ rest) h.0,
        read_bytes-write_bytes key rest h.1,
      )
      refl
decode_count-encode_op (clear store) count rest h = rw (read_varint-write_varint store rest h) refl
decode_count-encode_op (index_put index idx_key primary_key) count rest h =
    rw (read_entry-write index_put index idx_key primary_key rest h.0 h.1 h.2) refl
decode_count-encode_op (index_delete index idx_key primary_key) count rest h =
    rw (read_entry-write index_delete index idx_key primary_key rest h.0 h.1 h.2) refl
decode_count-encode_op (key_gen_set store value_bits) count rest h =
    let bits = le_bytes 8 value_bits in
    let t : take 8 (bits ++ rest) ≡ bits = unfold le_bytes in refl in
    let d : drop 8 (bits ++ rest) ≡ rest = unfold le_bytes in refl in
    let l : ltb (length (bits ++ rest)) 8 ≡ false =
      ground (arith, length-append bits rest, length-le_bytes 8 value_bits) in
    rw
      (
        append_assoc,
        read_varint-write_varint store (bits ++ rest) h.0,
        l,
        t,
        d,
        from_le_bytes-le_bytes 8 value_bits h.1,
      )
      refl
decode_count-encode_op (meta_replace bytes) count rest h =
    rw (read_bytes-write_bytes bytes rest h) refl

decode_count-encode_ops :
    (ops : List WalOp) (rest : List ℕ)
    → All IsOp ops
    → decode_count (length ops) (encode_ops ops ++ rest) ≡ ok (ops, rest)
unfolding encode_ops
decode_count-encode_ops [] rest h = unfold decode_count in refl
decode_count-encode_ops (op ∷ ops) rest h =
    rw
      (
        append_assoc,
        decode_count-encode_op op (length ops) (encode_ops ops ++ rest) h.0,
        decode_count-encode_ops ops rest h.1,
      )
      refl

pub decode_ops-encode_payload :
    (ops : List WalOp)
    → All IsOp ops
    → length ops < 2 ^ 64
    → decode_ops (encode_payload ops) ≡ ok ops
unfolding decode_ops encode_payload
decode_ops-encode_payload ops h l =
    let e : decode_count (length ops) (encode_ops ops) ≡ ok (ops, []) =
      rw append-nil at (decode_count-encode_ops ops [] h) in
    rw (read_varint-write_varint (length ops) (encode_ops ops) l, e) refl

pub length-frame_header : (len txn_seq flags : ℕ) → length (frame_header len txn_seq flags) ≡ 17
unfolding frame_header le_bytes
length-frame_header len txn_seq flags = refl

-- The header is read as it was written, whatever follows it.
pub decode_frame-frame_header :
    (len txn_seq flags : ℕ) (p : List ℕ)
    → len ≤ max_frame_payload
    → 4 ≤ length p
    → decode_frame (frame_header len txn_seq flags ++ p)
      ≡ decode_body len (frame_header len txn_seq flags ++ p)
unfolding decode_frame
decode_frame-frame_header len txn_seq flags p h l =
    let input = frame_header len txn_seq flags ++ p in
    let n : length input ≡ 17 + length p =
      length-append (frame_header len txn_seq flags) p
      ∙ ap (λ (n : ℕ). n + length p) (length-frame_header len txn_seq flags) in
    let a : (length input == 0) ≡ false = ground (arith, n) in
    let b : ltb (length input) 21 ≡ false = ground (arith, n) in
    let m : from_le_bytes (take 4 input) ≡ wal_magic =
      unfold frame_header le_bytes from_le_bytes in refl in
    let t : take 4 (drop 4 input) ≡ le_bytes 4 (len % 2 ^ 32) =
      unfold frame_header le_bytes in refl in
    let k : from_le_bytes (take 4 (drop 4 input)) ≡ len =
      ap from_le_bytes t ∙ from_le_bytes-le_bytes 4 (len % 2 ^ 32) (omega arith) ∙ omega arith in
    rw (a, b, m, k) refl
