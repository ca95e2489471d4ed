-- ===== src/Fs/Wal/Pack.antt =====
-- A transaction cut into frames: `encode_txn_frames_limited` of crates/boa_idb_fs/src/wal.rs, with the
-- lengths that it keeps in place of the bytes.
pub mod Groups
pub mod Total
use indexed_db_boa.Fs.Wal.{
  WalOp, put, delete, clear, index_put, index_delete, key_gen_set, meta_replace, WalFrame,
  CodecError, payload_too_large, flag_continues, flag_commit, max_frame_payload,
  encode_frame_limited, encode_payload,
}
use indexed_db_boa.Base.{
  ℕ, zero, suc, ◌+◌, ◌/◌, ◌^◌, List, [], ◌∷◌, ◌++◌, Result, ok, err, ◌>>=◌, ltb, leb, ◌==◌, length,
  if◌then◌else◌,
}

-- The loop of `varint_len`, at most `fuel` rounds.
unfoldable pub varint_len_loop : ℕ → ℕ → ℕ
varint_len_loop zero v = 1
varint_len_loop (suc fuel) v =
    let rest = varint_len_loop fuel (v / 2 ^ 7) in if leb 0x80 v then suc rest else 1

-- A u64 is below 0x80 after nine rounds.
unfoldable pub varint_len : ℕ → ℕ
varint_len v = varint_len_loop 9 v

unfoldable pub bytes_len : List ℕ → ℕ
bytes_len bytes = varint_len (length bytes) + length bytes

unfoldable pub op_encoded_len : WalOp → ℕ
op_encoded_len (put store key value) = 1 + varint_len store + bytes_len key + bytes_len value
op_encoded_len (delete store key) = 1 + varint_len store + bytes_len key
op_encoded_len (clear store) = 1 + varint_len store
op_encoded_len (index_put index idx_key primary_key) =
    1 + varint_len index + bytes_len idx_key + bytes_len primary_key
op_encoded_len (index_delete index idx_key primary_key) =
    1 + varint_len index + bytes_len idx_key + bytes_len primary_key
op_encoded_len (key_gen_set store value_bits) = 1 + varint_len store + 8
op_encoded_len (meta_replace bytes) = 1 + bytes_len bytes

-- `payload_len`
unfoldable pub payload_len : List WalOp → ℕ
payload_len ops = length (encode_payload ops)

-- The groups that are full, the one that grows, and the bytes of its operations.
pub record Packer : Type 0 where
  pub groups : List (List WalOp)
  pub current : List WalOp
  pub current_len : ℕ

-- One round of the loop over the operations.
unfoldable pub pack_op : ℕ → Packer → WalOp → Result CodecError Packer
pack_op max p op =
    let op_len = op_encoded_len op in
    let joined =
      ok (record p { current = p.current ++ op ∷ []; current_len = p.current_len + op_len }) in
    let first = ok (record p { current = p.current ++ op ∷ []; current_len = op_len }) in
    let next =
      ok
        (record { groups = p.groups ++ p.current ∷ []; current = op ∷ []; current_len = op_len }) in
    if length p.current == 0
    then (if ltb max (op_len + 1) then err (payload_too_large (op_len + 1)) else first)
    else if leb (p.current_len + op_len + varint_len (length p.current + 1)) max
    then joined
    else if ltb max (op_len + 1)
    then err (payload_too_large (op_len + 1))
    else next

unfoldable pub pack_ops : ℕ → Packer → List WalOp → Result CodecError Packer
pack_ops max p [] = ok p
pack_ops max p (op ∷ ops) = pack_op max p op >>= λ p'. pack_ops max p' ops

-- The last group is pushed after the loop.
unfoldable pub finish_groups : Packer → List (List WalOp)
finish_groups p = if length p.current == 0 then p.groups else p.groups ++ p.current ∷ []

abbrev pub no_groups : Packer
no_groups = record { groups = []; current = []; current_len = 0 }

unfoldable pub group_ops : ℕ → List WalOp → Result CodecError (List (List WalOp))
group_ops max ops = pack_ops max no_groups ops >>= λ p. ok (finish_groups p)

-- The flags of the frames: only the last one commits.
unfoldable pub txn_frames : ℕ → List (List WalOp) → List WalFrame
txn_frames txn_seq [] = []
txn_frames txn_seq (group ∷ []) =
    record { txn_seq = txn_seq; flags = flag_commit; ops = group } ∷ []
txn_frames txn_seq (group ∷ group' ∷ groups) =
    record { txn_seq = txn_seq; flags = flag_continues; ops = group }
    ∷ txn_frames txn_seq (group' ∷ groups)

-- The loop that encodes them.
unfoldable pub encode_frames : List WalFrame → ℕ → Result CodecError (List (List ℕ))
encode_frames [] max_payload = ok []
encode_frames (frame ∷ frames) max_payload = encode_frame_limited frame max_payload >>= λ bytes.
    encode_frames frames max_payload >>= λ out. ok (bytes ∷ out)

unfoldable pub encode_txn_frames_limited : ℕ → List WalOp → ℕ → Result CodecError (List (List ℕ))
encode_txn_frames_limited txn_seq ops max_payload =
    let frames = group_ops max_payload ops >>= λ groups.
    encode_frames (txn_frames txn_seq groups) max_payload in
    if length ops == 0 then ok [] else frames

unfoldable pub encode_txn_frames : ℕ → List WalOp → Result CodecError (List (List ℕ))
encode_txn_frames txn_seq ops = encode_txn_frames_limited txn_seq ops max_frame_payload
