-- ===== src/Fs/Tests.antt =====
-- The write-ahead log at concrete transactions.
use indexed_db_boa.Fs.Wal.{
  WalOp, put, delete, clear, key_gen_set, WalFrame, torn, payload_too_large, le_bytes, write_loop,
  write_varint, write_bytes, encode_op, encode_ops, encode_payload, frame_header,
  encode_frame_limited, max_frame_payload,
}
use indexed_db_boa.Fs.Wal.Decode.{decode_frame}
use indexed_db_boa.Fs.Wal.RoundTrip.{IsOp}
use indexed_db_boa.Fs.Wal.Frames.{decode_frame-encode_frame, decode_frame-torn}
use indexed_db_boa.Fs.Wal.Pack.{
  varint_len_loop, varint_len, bytes_len, op_encoded_len, pack_op, pack_ops, finish_groups,
  group_ops, txn_frames, encode_frames, encode_txn_frames_limited,
}
use indexed_db_boa.Fs.Wal.Pack.Total.{
  OpFits, FirstTooLong, Framed, encode_txn_frames_limited-total, encode_txn_frames_limited-error,
}
use indexed_db_boa.Fs.Wal.Recover.{scan_start, recover_loop, recover_committed_frames}
use indexed_db_boa.Fs.Wal.Recover.Total.{recover_committed_frames-total}
use indexed_db_boa.Fs.Wal.Recover.Log.{log_bytes, frame_ops, txn_ops}
use indexed_db_boa.Fs.Wal.Recover.Crash.{recover_committed_frames-crash}
use indexed_db_boa.Base.{
  ◌+◌, ◌≤◌, ℕ, ◌≡◌, refl, List, [], ◌∷◌, ◌++◌, some, ok, err, value_or, length, All, take, drop,
  concat, arith,
}

abbrev stored : WalOp
stored = put 1 (0x10 ∷ 0x20 ∷ []) (7 ∷ 8 ∷ 9 ∷ [])

abbrev generated : WalOp
generated = key_gen_set 300 0x4000_0000_0000_0000

-- Three operations, of which a payload of twelve bytes holds one each.
abbrev ops : List WalOp
ops = stored ∷ generated ∷ delete 1 (0x10 ∷ []) ∷ []

abbrev frame : WalFrame
frame = record { txn_seq = 7; flags = 2; ops = ops }

abbrev frame_bytes : List ℕ
frame_bytes = value_or [] (encode_frame_limited frame max_frame_payload)

frame_ok : encode_frame_limited frame max_frame_payload ≡ ok frame_bytes
unfolding le_bytes write_loop write_varint write_bytes encode_op encode_ops encode_payload
    frame_header encode_frame_limited
frame_ok = refl

frame_cut : take 30 frame_bytes ++ drop 30 frame_bytes ≡ frame_bytes
unfolding le_bytes write_loop write_varint write_bytes encode_op encode_ops encode_payload
    frame_header encode_frame_limited
frame_cut = refl

frame_front : length (take 30 frame_bytes) ≡ 30
unfolding le_bytes write_loop write_varint write_bytes encode_op encode_ops encode_payload
    frame_header encode_frame_limited
frame_front = refl

frame_back : length (drop 30 frame_bytes) ≡ 16
unfolding le_bytes write_loop write_varint write_bytes encode_op encode_ops encode_payload
    frame_header encode_frame_limited
frame_back = refl

ops_ok : All IsOp ops
ops_ok = (
  (omega arith, omega arith, omega arith),
  ((omega arith, omega arith), ((omega arith, omega arith), tt)),
)

decode_frame-encode_frame_example :
    decode_frame (frame_bytes ++ 0 ∷ []) ≡ ok (some (frame, length frame_bytes))
decode_frame-encode_frame_example =
    decode_frame-encode_frame frame max_frame_payload frame_bytes (0 ∷ []) (omega arith)
      (omega arith, omega arith, ops_ok) frame_ok

decode_frame-torn_example : decode_frame (take 30 frame_bytes) ≡ err torn
decode_frame-torn_example =
    decode_frame-torn frame max_frame_payload frame_bytes (take 30 frame_bytes)
      (drop 30 frame_bytes) (omega arith) frame_ok frame_cut (omega (arith, frame_front))
      (omega (arith, frame_back))

-- A log of two transactions, cut into frames whose payload is twelve bytes at most.
abbrev txns : List (ℕ × List WalOp)
txns = (1, ops) ∷ (2, clear 1 ∷ []) ∷ []

abbrev log : List ℕ
log = value_or [] (log_bytes 12 txns)

abbrev last_frames : List (List ℕ)
last_frames = value_or [] (encode_txn_frames_limited 3 ops 12)

log_ok : log_bytes 12 txns ≡ ok log
unfolding le_bytes write_loop write_varint write_bytes encode_op encode_ops encode_payload
    frame_header encode_frame_limited varint_len_loop varint_len bytes_len op_encoded_len pack_op
    pack_ops finish_groups group_ops txn_frames encode_frames encode_txn_frames_limited log_bytes
log_ok = refl

last_ok : encode_txn_frames_limited 3 ops 12 ≡ ok last_frames
unfolding le_bytes write_loop write_varint write_bytes encode_op encode_ops encode_payload
    frame_header encode_frame_limited varint_len_loop varint_len bytes_len op_encoded_len pack_op
    pack_ops finish_groups group_ops txn_frames encode_frames encode_txn_frames_limited
last_ok = refl

last_cut : take 50 (concat last_frames) ++ drop 50 (concat last_frames) ≡ concat last_frames
unfolding le_bytes write_loop write_varint write_bytes encode_op encode_ops encode_payload
    frame_header encode_frame_limited varint_len_loop varint_len bytes_len op_encoded_len pack_op
    pack_ops finish_groups group_ops txn_frames encode_frames encode_txn_frames_limited
last_cut = refl

last_back : length (drop 50 (concat last_frames)) ≡ 40
unfolding le_bytes write_loop write_varint write_bytes encode_op encode_ops encode_payload
    frame_header encode_frame_limited varint_len_loop varint_len bytes_len op_encoded_len pack_op
    pack_ops finish_groups group_ops txn_frames encode_frames encode_txn_frames_limited
last_back = refl

recover_committed_frames-crash_example :
    frame_ops (recover_committed_frames (log ++ take 50 (concat last_frames))).frames ≡ txn_ops txns
    × ((recover_committed_frames (log ++ take 50 (concat last_frames))).valid_prefix_len
        ≡ length log)
recover_committed_frames-crash_example =
    recover_committed_frames-crash 12 (omega arith) txns (3, ops) log (take 50 (concat last_frames))
      (drop 50 (concat last_frames)) last_frames
      ((omega arith, omega arith, ops_ok), ((omega arith, omega arith, (omega arith, tt)), tt))
      (omega arith, omega arith, ops_ok) log_ok last_ok last_cut (omega (arith, last_back))

ops_fit : All (OpFits 12) ops
unfolding varint_len_loop varint_len bytes_len op_encoded_len
ops_fit = (omega arith, (omega arith, (omega arith, tt)))

encode_txn_frames_limited-total_example :
    (out : List (List ℕ)) × (encode_txn_frames_limited 7 ops 12 ≡ ok out) × Framed 7 ops 12 out
encode_txn_frames_limited-total_example = encode_txn_frames_limited-total 7 ops 12 ops_fit

too_long : encode_txn_frames_limited 7 ops 10 ≡ err (payload_too_large 12)
unfolding varint_len_loop varint_len bytes_len op_encoded_len pack_op pack_ops group_ops
    encode_txn_frames_limited
too_long = refl

encode_txn_frames_limited-error_example : FirstTooLong 10 ops (payload_too_large 12)
encode_txn_frames_limited-error_example =
    encode_txn_frames_limited-error 7 ops 10 (payload_too_large 12) too_long

-- A log with two stray bytes behind its transactions.
recover_committed_frames-total_example :
    recover_loop (length (log ++ 1 ∷ 2 ∷ []) + 5) (log ++ 1 ∷ 2 ∷ []) scan_start
      ≡ recover_loop (length (log ++ 1 ∷ 2 ∷ [])) (log ++ 1 ∷ 2 ∷ []) scan_start
    × ((recover_committed_frames (log ++ 1 ∷ 2 ∷ [])).valid_prefix_len ≤ length (log ++ 1 ∷ 2 ∷ []))
recover_committed_frames-total_example = recover_committed_frames-total (log ++ 1 ∷ 2 ∷ []) 5
