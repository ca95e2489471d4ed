-- ===== src/Fs/Wal.antt =====
-- The frames of the write-ahead log: the operations, the errors and the encoder of
-- crates/boa_idb_fs/src/wal.rs. A writer gives the bytes it pushes onto `out`.
pub mod Decode
pub mod Varints
pub mod RoundTrip
pub mod Frames
pub mod Pack
pub mod Recover
use Prim.Native.Nat.{bit_and, bit_or}
use indexed_db_boa.Clone.Crc.{crc32c}
use indexed_db_boa.Base.{
  ℕ, zero, suc, ◌-◌, ◌/◌, ◌%◌, ◌^◌, List, [], ◌∷◌, ◌++◌, Result, ok, err, ltb, ◌==◌, length,
  if◌then◌else◌,
}

pub data WalOp : Type 0 where
  put : (store : ℕ) (key value : List ℕ) → WalOp
  delete : (store : ℕ) (key : List ℕ) → WalOp
  clear : (store : ℕ) → WalOp
  index_put index_delete : (index : ℕ) (idx_key primary_key : List ℕ) → WalOp
  key_gen_set : (store value_bits : ℕ) → WalOp
  meta_replace : (bytes : List ℕ) → WalOp

pub record WalFrame : Type 0 where
  pub txn_seq : ℕ
  pub flags : ℕ
  pub ops : List WalOp

-- The texts of `CodecError::Malformed`.
pub data Defect : Type 0 where
  truncated_ops unknown_op_kind keygen_bits trailing_payload_bytes : Defect
  varint_overflow truncated_varint truncated_bytes : Defect

pub data CodecError : Type 0 where
  torn : CodecError
  bad_magic : ℕ → CodecError
  bad_crc : (expected actual : ℕ) → CodecError
  payload_too_large : ℕ → CodecError
  malformed : Defect → CodecError

-- `WAL_MAGIC`, the bytes IWAL in little-endian order.
abbrev pub wal_magic : ℕ
wal_magic = 0x4C415749

abbrev pub flag_continues : ℕ
flag_continues = 1

abbrev pub flag_commit : ℕ
flag_commit = 2

-- `MAX_FRAME_PAYLOAD`, 64 MiB.
abbrev pub max_frame_payload : ℕ
max_frame_payload = 0x400_0000

-- `to_le_bytes` of a word of `width` bytes.
unfoldable pub le_bytes : ℕ → ℕ → List ℕ
le_bytes zero v = []
le_bytes (suc width) v = v % 256 ∷ le_bytes width (v / 256)

-- The loop of `write_varint`, at most `fuel` times more after the byte it writes.
unfoldable pub write_loop : ℕ → ℕ → List ℕ
write_loop zero v =
    let b = bit_and v 0x7F % 256 in (if v / 2 ^ 7 == 0 then b else bit_or b 0x80) ∷ []
write_loop (suc fuel) v =
    let b = bit_and v 0x7F % 256 in
    let rest = write_loop fuel (v / 2 ^ 7) in
    if v / 2 ^ 7 == 0 then b ∷ [] else bit_or b 0x80 ∷ rest

-- A u64 has ten groups of seven bits at most.
unfoldable pub write_varint : ℕ → List ℕ
write_varint v = write_loop 9 v

unfoldable pub write_bytes : List ℕ → List ℕ
write_bytes bytes = write_varint (length bytes) ++ bytes

unfoldable pub encode_op : WalOp → List ℕ
encode_op (put store key value) = 1 ∷ write_varint store ++ write_bytes key ++ write_bytes value
encode_op (delete store key) = 2 ∷ write_varint store ++ write_bytes key
encode_op (clear store) = 3 ∷ write_varint store
encode_op (index_put index idx_key primary_key) =
    4 ∷ write_varint index ++ write_bytes idx_key ++ write_bytes primary_key
encode_op (index_delete index idx_key primary_key) =
    5 ∷ write_varint index ++ write_bytes idx_key ++ write_bytes primary_key
encode_op (key_gen_set store value_bits) = 6 ∷ write_varint store ++ le_bytes 8 value_bits
encode_op (meta_replace bytes) = 7 ∷ write_bytes bytes

-- The loop over the operations of a payload.
unfoldable pub encode_ops : List WalOp → List ℕ
encode_ops [] = []
encode_ops (op ∷ ops) = encode_op op ++ encode_ops ops

-- The payload that `encode_frame_limited` and `payload_len` build.
unfoldable pub encode_payload : List WalOp → List ℕ
encode_payload ops = write_varint (length ops) ++ encode_ops ops

-- The bytes in front of the payload.
unfoldable pub frame_header : ℕ → ℕ → ℕ → List ℕ
frame_header payload_len txn_seq flags =
    le_bytes 4 wal_magic ++ le_bytes 4 (payload_len % 2 ^ 32) ++ le_bytes 8 txn_seq ++ flags ∷ []

unfoldable pub encode_frame_limited : WalFrame → ℕ → Result CodecError (List ℕ)
encode_frame_limited frame max_payload =
    let payload = encode_payload frame.ops in
    let body = frame_header (length payload) frame.txn_seq frame.flags ++ payload in
    if ltb max_payload (length payload)
    then err (payload_too_large (length payload))
    else ok (body ++ le_bytes 4 (crc32c body))

unfoldable pub encode_frame : WalFrame → Result CodecError (List ℕ)
encode_frame frame = encode_frame_limited frame max_frame_payload
