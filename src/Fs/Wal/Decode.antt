-- ===== src/Fs/Wal/Decode.antt =====
-- The decoder of crates/boa_idb_fs/src/wal.rs. Readers give the bytes that are left.
use Prim.Native.Nat.{bit_and, bit_or}
use indexed_db_boa.Clone.Crc.{crc32c}
use indexed_db_boa.Fs.Wal.{
  WalOp, put, delete, clear, index_put, index_delete, key_gen_set, meta_replace, WalFrame,
  CodecError, torn, bad_magic, bad_crc, payload_too_large, malformed, truncated_ops,
  unknown_op_kind, keygen_bits, trailing_payload_bytes, varint_overflow, truncated_varint,
  truncated_bytes, wal_magic, max_frame_payload,
}
use indexed_db_boa.Base.{
  ℕ, zero, suc, ◌+◌, ◌*◌, ◌%◌, ◌^◌, List, [], ◌∷◌, Option, none, some, not, Result, ok, err, ◌>>=◌,
  ltb, leb, ◌==◌, length, take, drop, if◌then◌else◌,
}

-- `from_le_bytes`
unfoldable pub from_le_bytes : List ℕ → ℕ
from_le_bytes [] = 0
from_le_bytes (b ∷ bytes) = b + 256 * from_le_bytes bytes

unfoldable pub read_loop : List ℕ → ℕ → ℕ → Result CodecError (ℕ × List ℕ)
read_loop [] result shift = err (malformed truncated_varint)
read_loop (b ∷ input) result shift =
    let result' = bit_or result (bit_and b 0x7F * 2 ^ shift % 2 ^ 64) in
    let rest = read_loop input result' (shift + 7) in
    if leb 64 shift
    then err (malformed varint_overflow)
    else if bit_and b 0x80 == 0
    then ok (result', input)
    else rest

unfoldable pub read_varint : List ℕ → Result CodecError (ℕ × List ℕ)
read_varint input = read_loop input 0 0

unfoldable pub read_bytes : List ℕ → Result CodecError (List ℕ × List ℕ)
read_bytes input = read_varint input >>= λ (len, rest).
    if ltb (length rest) len
    then err (malformed truncated_bytes)
    else ok (take len rest, drop len rest)

-- The two byte strings after the id of a put and of the index operations.
unfoldable pub read_entry :
    (ℕ → List ℕ → List ℕ → WalOp) → List ℕ → Result CodecError (WalOp × List ℕ)
read_entry op payload = read_varint payload >>= (λ (id, r).
    read_bytes r >>= (λ (key, r'). read_bytes r' >>= λ (value, r''). ok (op id key value, r'')))

unfoldable pub read_key_gen : List ℕ → Result CodecError (WalOp × List ℕ)
read_key_gen payload = read_varint payload >>= λ (store, r).
    if ltb (length r) 8
    then err (malformed keygen_bits)
    else ok (key_gen_set store (from_le_bytes (take 8 r)), drop 8 r)

-- The match on the kind of one operation.
unfoldable pub decode_op : ℕ → List ℕ → Result CodecError (WalOp × List ℕ)
decode_op kind payload =
    let deleted = read_varint payload >>= λ (store, r).
    read_bytes r >>= λ (key, r'). ok (delete store key, r') in
    let cleared = read_varint payload >>= λ (store, r). ok (clear store, r) in
    let replaced = read_bytes payload >>= λ (bytes, r). ok (meta_replace bytes, r) in
    if kind == 1
    then read_entry put payload
    else if kind == 2
    then deleted
    else if kind == 3
    then cleared
    else if kind == 4
    then read_entry index_put payload
    else if kind == 5
    then read_entry index_delete payload
    else if kind == 6
    then read_key_gen payload
    else if kind == 7
    then replaced
    else err (malformed unknown_op_kind)

-- The loop of `decode_ops`, with the operations that are still to come.
unfoldable pub decode_count : ℕ → List ℕ → Result CodecError (List WalOp × List ℕ)
decode_count zero payload = ok ([], payload)
decode_count (suc count) [] = err (malformed truncated_ops)
decode_count (suc count) (kind ∷ payload) = decode_op kind payload >>= λ (op, rest).
    decode_count count rest >>= λ (ops, rest'). ok (op ∷ ops, rest')

unfoldable pub decode_ops : List ℕ → Result CodecError (List WalOp)
decode_ops payload = read_varint payload >>= (λ (count, rest).
    decode_count count rest >>= λ (ops, rest').
    if length rest' == 0 then ok ops else err (malformed trailing_payload_bytes))

-- A frame whose magic is right and which announces a payload of `len` bytes.
unfoldable pub decode_body : ℕ → List ℕ → Result CodecError (Option (WalFrame × ℕ))
decode_body len input =
    let header_and_payload = 4 + 4 + 8 + 1 + len in
    let total = header_and_payload + 4 in
    let expected = from_le_bytes (take 4 (drop header_and_payload input)) in
    let actual = crc32c (take header_and_payload input) in
    if ltb max_frame_payload len
    then err (payload_too_large len)
    else if ltb (length input) total
    then err torn
    else if not (expected == actual)
    then err (bad_crc expected actual)
    else (decode_ops (take len (drop 17 input)) >>= λ ops.
        let frame : WalFrame = record {
          txn_seq = from_le_bytes (take 8 (drop 8 input));
          flags = from_le_bytes (take 1 (drop 16 input));
          ops = ops;
        } in
        ok (some (frame, total)))

unfoldable pub decode_frame : List ℕ → Result CodecError (Option (WalFrame × ℕ))
decode_frame input =
    let magic = from_le_bytes (take 4 input) in
    let len = from_le_bytes (take 4 (drop 4 input)) in
    if length input == 0
    then ok none
    else if ltb (length input) (4 + 4 + 8 + 1 + 4)
    then err torn
    else if not (magic == wal_magic)
    then err (bad_magic magic)
    else decode_body len input
