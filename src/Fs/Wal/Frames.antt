-- ===== src/Fs/Wal/Frames.antt =====
-- Whole frames and torn frames: `encode_frame` against `decode_frame` of crates/boa_idb_fs/src/wal.rs.
use indexed_db_boa.Clone.Crc.{crc32c, crc32c-IsU32}
use indexed_db_boa.Fs.Wal.{
  WalFrame, torn, le_bytes, encode_payload, frame_header, encode_frame_limited, max_frame_payload,
}
use indexed_db_boa.Fs.Wal.Decode.{from_le_bytes, decode_body, decode_frame}
use indexed_db_boa.Fs.Wal.Varints.{length-le_bytes, from_le_bytes-le_bytes}
use indexed_db_boa.Fs.Wal.RoundTrip.{
  IsOp, decode_ops-encode_payload, length-frame_header, decode_frame-frame_header,
}
use indexed_db_boa.Base.{
  ℕ, ◌+◌, ◌^◌, ◌<◌, ◌≤◌, ◌≡◌, refl, sym, ap, ◌∙◌, true, false, List, ◌++◌, append_assoc, ok, err,
  ok_inj, length, All, take, drop, take-append, drop-append, ltb, ◌==◌, arith, Bool-cases, inl, inr,
  length-append, some, cut_later,
}

abbrev pub IsFrame : WalFrame → Type 0
IsFrame frame = frame.txn_seq < 2 ^ 64 × (length frame.ops < 2 ^ 64) × All IsOp frame.ops

-- The bytes that the checksum covers.
abbrev frame_body : WalFrame → List ℕ
frame_body frame =
    frame_header (length (encode_payload frame.ops)) frame.txn_seq frame.flags
    ++ encode_payload frame.ops

encode_frame_limited-ok :
    (frame : WalFrame) (max_payload : ℕ) (bytes : List ℕ)
    → encode_frame_limited frame max_payload ≡ ok bytes
    → length (encode_payload frame.ops) ≤ max_payload
      × (bytes ≡ frame_body frame ++ le_bytes 4 (crc32c (frame_body frame)))
unfolding encode_frame_limited
encode_frame_limited-ok frame max_payload bytes e =
    elim (Bool-cases (ltb max_payload (length (encode_payload frame.ops)))) [
      | inl f ↦ let e' = rw f at e in ground arith
      | inr f ↦ (ground arith, sym (ok_inj (rw f at e)))
    ]

length-frame_body :
    (frame : WalFrame) → length (frame_body frame) ≡ 17 + length (encode_payload frame.ops)
length-frame_body frame =
    let n = length (encode_payload frame.ops) in
    omega (
      arith,
      length-append (frame_header n frame.txn_seq frame.flags) (encode_payload frame.ops),
      length-frame_header n frame.txn_seq frame.flags,
    )

-- The length of a frame.
length-encode_frame :
    (frame : WalFrame)
    → length (frame_body frame ++ le_bytes 4 (crc32c (frame_body frame)))
      ≡ 17 + length (encode_payload frame.ops) + 4
length-encode_frame frame = omega (
  arith,
  length-append (frame_body frame) (le_bytes 4 (crc32c (frame_body frame))),
  length-frame_body frame,
  length-le_bytes 4 (crc32c (frame_body frame)),
)

pub encode_frame_limited-size :
    (frame : WalFrame) (max_payload : ℕ) (bytes : List ℕ)
    → encode_frame_limited frame max_payload ≡ ok bytes
    → 21 ≤ length bytes
encode_frame_limited-size frame max_payload bytes e =
    let (l, c) = encode_frame_limited-ok frame max_payload bytes e in
    omega (arith, length-encode_frame frame, ap length c)

decode_body-frame :
    (frame : WalFrame) (rest : List ℕ)
    → IsFrame frame
    → length (encode_payload frame.ops) ≤ max_frame_payload
    → decode_body
        (length (encode_payload frame.ops))
        (frame_body frame ++ (le_bytes 4 (crc32c (frame_body frame)) ++ rest))
      ≡ ok (some (frame, 17 + length (encode_payload frame.ops) + 4))
unfolding decode_body
decode_body-frame frame rest h l =
    let payload = encode_payload frame.ops in
    let n = length payload in
    let body = frame_body frame in
    let c = le_bytes 4 (crc32c body) in
    let input = body ++ (c ++ rest) in
    let b : length body ≡ 17 + n = length-frame_body frame in
    let a : ltb max_frame_payload n ≡ false = ground arith in
    let size : ltb (length input) (17 + n + 4) ≡ false = ground (
      arith,
      b,
      length-append body (c ++ rest),
      length-append c rest,
      length-le_bytes 4 (crc32c body),
    ) in
    let t : take (17 + n) input ≡ body =
      ap (λ (k : ℕ). take k input) (sym b) ∙ take-append body (c ++ rest) in
    let d : drop (17 + n) input ≡ c ++ rest =
      ap (λ (k : ℕ). drop k input) (sym b) ∙ drop-append body (c ++ rest) in
    let w : take 4 (c ++ rest) ≡ c = unfold le_bytes in refl in
    let k : (from_le_bytes (take 4 (drop (17 + n) input)) == crc32c (take (17 + n) input)) ≡ true =
      rw (d, t, w, from_le_bytes-le_bytes 4 (crc32c body) (crc32c-IsU32 body)) (ground arith) in
    let p : take n (drop 17 input) ≡ payload =
      unfold frame_header le_bytes in take-append payload (c ++ rest) in
    let s : from_le_bytes (take 8 (drop 8 input)) ≡ frame.txn_seq =
      ap from_le_bytes (
        let q : take 8 (drop 8 input) ≡ le_bytes 8 frame.txn_seq =
          unfold frame_header le_bytes in refl in
        q)
      ∙ from_le_bytes-le_bytes 8 frame.txn_seq h.0 in
    let g : from_le_bytes (take 1 (drop 16 input)) ≡ frame.flags =
      unfold frame_header le_bytes from_le_bytes in omega arith in
    rw (a, size, k, p, s, g, decode_ops-encode_payload frame.ops h.2 h.1) refl

-- Round trip of a frame: what `encode_frame_limited` writes of a well-typed frame under the limit of
-- 64 MiB or a smaller one, `decode_frame` reads back, whatever follows it, and it reports as consumed
-- exactly the bytes written.
pub decode_frame-encode_frame :
    (frame : WalFrame) (max_payload : ℕ) (bytes rest : List ℕ)
    → max_payload ≤ max_frame_payload
    → IsFrame frame
    → encode_frame_limited frame max_payload ≡ ok bytes
    → decode_frame (bytes ++ rest) ≡ ok (some (frame, length bytes))
decode_frame-encode_frame frame max_payload bytes rest m h e =
    let (l, c) = encode_frame_limited-ok frame max_payload bytes e in
    let payload = encode_payload frame.ops in
    let crc = le_bytes 4 (crc32c (frame_body frame)) in
    let n = length payload in
    let short : 4 ≤ length (payload ++ (crc ++ rest)) = omega (
      arith,
      length-append payload (crc ++ rest),
      length-append crc rest,
      length-le_bytes 4 (crc32c (frame_body frame)),
    ) in
    rw (c, append_assoc)
      (ap decode_frame
          (append_assoc (frame_header n frame.txn_seq frame.flags) payload (crc ++ rest))
        ∙ decode_frame-frame_header n frame.txn_seq frame.flags (payload ++ (crc ++ rest))
            (omega arith) short
        ∙ ap (decode_body n)
            (sym (append_assoc (frame_header n frame.txn_seq frame.flags) payload (crc ++ rest)))
        ∙ decode_body-frame frame rest h (omega arith)
        ∙ ap (λ n. ok (some (frame, n))) (sym (length-encode_frame frame)))

-- A torn write is noticed: every part of an encoded frame that lacks some of its last bytes, but not
-- all its bytes, is an incomplete frame for `decode_frame`, under the limit of 64 MiB or a smaller one.
pub decode_frame-torn :
    (frame : WalFrame) (max_payload : ℕ) (bytes front back : List ℕ)
    → max_payload ≤ max_frame_payload
    → encode_frame_limited frame max_payload ≡ ok bytes
    → front ++ back ≡ bytes
    → 0 < length front
    → 0 < length back
    → decode_frame front ≡ err torn
decode_frame-torn frame max_payload bytes front back m e c f b =
    let (l, d) = encode_frame_limited-ok frame max_payload bytes e in
    let payload = encode_payload frame.ops in
    let crc = le_bytes 4 (crc32c (frame_body frame)) in
    let n = length payload in
    let header = frame_header n frame.txn_seq frame.flags in
    elim (Bool-cases (ltb (length front) 21)) [
      | inl s ↦
          let z : (length front == 0) ≡ false = ground arith in
          unfold decode_frame in rw (z, s) refl
      | inr s ↦
          let (p, q, r) =
            cut_later front back header (payload ++ crc) (c ∙ d ∙ append_assoc header payload crc)
              (ground (arith, length-frame_header n frame.txn_seq frame.flags)) in
          let whole : length front ≡ 17 + length p =
            ap length q
            ∙ length-append header p
            ∙ ap (λ (k : ℕ). k + length p) (length-frame_header n frame.txn_seq frame.flags) in
          let joined = sym (length-append p back) ∙ ap length r ∙ length-append payload crc in
          let most : ltb max_frame_payload n ≡ false = ground arith in
          let less : ltb (length front) (17 + n + 4) ≡ true =
            ground (arith, length-le_bytes 4 (crc32c (frame_body frame))) in
          ap decode_frame q
          ∙ decode_frame-frame_header n frame.txn_seq frame.flags p (omega arith) (ground arith)
          ∙ ap (decode_body n) (sym q)
          ∙ (unfold decode_body in rw (most, less) refl)
    ]
