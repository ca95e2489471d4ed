-- ===== src/Clone/Varint.antt =====
-- Unsigned varints: crates/boa_idb_core/src/clone/varint.rs. A u64 shift keeps the low 64 bits.
pub mod RoundTrip
use Prim.Native.Nat.{bit_and, bit_or}
use indexed_db_boa.Clone.{ScError, unexpected_eof, corrupted_payload}
use indexed_db_boa.Base.{
  ℕ, zero, suc, ◌+◌, ◌*◌, ◌/◌, ◌%◌, ◌^◌, List, [], ◌∷◌, ◌++◌, not, Result, ok, err, leb, ◌==◌,
  if◌then◌else◌,
}

-- One byte of `encode_uvarint`: seven bits, and the high bit when more follow.
unfoldable pub varint_byte : ℕ → ℕ
varint_byte val =
    let byte = bit_and val 0x7F % 256 in if not (val / 2 ^ 7 == 0) then bit_or byte 0x80 else byte

-- The loop, at most `fuel` times more after the byte it writes.
unfoldable pub encode_loop : ℕ → ℕ → List ℕ → List ℕ
encode_loop zero val out = out ++ varint_byte val ∷ []
encode_loop (suc fuel) val out =
    let rest = encode_loop fuel (val / 2 ^ 7) (out ++ varint_byte val ∷ []) in
    if val / 2 ^ 7 == 0 then out ++ varint_byte val ∷ [] else rest

-- A u64 has ten groups of seven bits at most.
unfoldable pub encode_uvarint : ℕ → List ℕ → List ℕ
encode_uvarint val out = encode_loop 9 val out

-- The loop of `decode_uvarint`, with the bytes from `offset` on.
unfoldable pub decode_loop : List ℕ → ℕ → ℕ → ℕ → Result ScError (ℕ × ℕ)
decode_loop [] offset result shift = err unexpected_eof
decode_loop (byte ∷ bytes) offset result shift =
    let result' = bit_or result (bit_and byte 0x7F * 2 ^ shift % 2 ^ 64) in
    let rest = decode_loop bytes (offset + 1) result' (shift + 7) in
    if bit_and byte 0x80 == 0
    then ok (result', offset + 1)
    else if leb 64 (shift + 7)
    then err corrupted_payload
    else rest

-- The bytes are those from the offset on; the number in the result is how many were read.
unfoldable pub decode_uvarint : List ℕ → Result ScError (ℕ × ℕ)
decode_uvarint bytes = decode_loop bytes 0 0 0
