-- ===== src/Fs/Wal/Recover/Transactions.antt =====
-- The scan of crates/boa_idb_fs/src/wal.rs over the frames of one transaction, whole or torn.
use indexed_db_boa.Fs.Wal.{WalOp, WalFrame, torn, encode_frame_limited, max_frame_payload}
use indexed_db_boa.Fs.Wal.Decode.{decode_frame}
use indexed_db_boa.Fs.Wal.RoundTrip.{IsOp}
use indexed_db_boa.Fs.Wal.Frames.{decode_frame-torn}
use indexed_db_boa.Fs.Wal.Pack.{txn_frames, encode_frames}
use indexed_db_boa.Fs.Wal.Recover.{Scan, recover_loop}
use indexed_db_boa.Fs.Wal.Recover.Frame.{
  Chain, commit_frame, continues_frame, after_commit, after_continues, scan_frame-commit,
  scan_frame-continues, recover_loop-frame, drop-frame, recover_loop-stop,
}
use indexed_db_boa.Base.{
  ℕ, zero, suc, ◌+◌, ◌^◌, ◌<◌, ◌≤◌, ◌≡◌, refl, sym, ap, ap₂, ◌∙◌, List, [], ◌∷◌, ◌++◌, append_assoc,
  append-nil, none, ok, err, ok_inj, Result-cases, length, All, drop, ltb, arith, Bool-cases, inl,
  inr, length-append, concat, cut_later,
}

pub encode_frames-cons :
    (frame : WalFrame) (frames : List WalFrame) (max : ℕ) (out : List (List ℕ))
    → encode_frames (frame ∷ frames) max ≡ ok out
    → (bytes : List ℕ) × (out' : List (List ℕ)) × (out ≡ bytes ∷ out')
      × (encode_frame_limited frame max ≡ ok bytes)
      × (encode_frames frames max ≡ ok out')
unfolding encode_frames
encode_frames-cons frame frames max out h = elim (Result-cases (encode_frame_limited frame max)) [
  | inl (bytes, e) ↦ elim (Result-cases (encode_frames frames max)) [
    | inl (out', f) ↦ (bytes, out', sym (ok_inj (rw (e, f) at h)), e, f)
    | inr (x, f) ↦ let h' = rw (e, f) at h in ground arith
  ]
  | inr (x, e) ↦ let h' = rw e at h in ground arith
]

pub encode_frames-nil : (max : ℕ) (out : List (List ℕ)) → encode_frames [] max ≡ ok out → out ≡ []
unfolding encode_frames
encode_frames-nil max out e = sym (ok_inj e)

abbrev pub GoodGroup : List WalOp → Type 0
GoodGroup group = length group < 2 ^ 64 × All IsOp group

-- The scan after the frames of a whole transaction.
abbrev pub committed_scan : Scan → List WalFrame → ℕ → Scan
committed_scan s frames next = record {
  offset = next;
  committed = s.committed ++ (s.pending ++ frames);
  pending = [];
  pending_seq = none;
  valid_prefix = next;
}

module _ (max txn_seq : ℕ) (m : max ≤ max_frame_payload) (q : txn_seq < 2 ^ 64) where
  pub recover_loop-txn :
      (groups : List (List WalOp)) (out : List (List ℕ)) (buf rest : List ℕ) (s : Scan) (fuel : ℕ)
      → All GoodGroup groups
      → 0 < length groups
      → encode_frames (txn_frames txn_seq groups) max ≡ ok out
      → Chain txn_seq s
      → drop s.offset buf ≡ concat out ++ rest
      → recover_loop (length groups + fuel) buf s
          ≡ recover_loop fuel buf
              (committed_scan s (txn_frames txn_seq groups) (s.offset + length (concat out)))
        × (drop (s.offset + length (concat out)) buf ≡ rest)
  unfolding txn_frames
  recover_loop-txn [] out buf rest s fuel g n e c d = absurd (omega arith)
  recover_loop-txn (group ∷ []) out buf rest s fuel g n e c d =
      let frame = commit_frame txn_seq group in
      let (bytes, out', o, eb, eo) = encode_frames-cons frame [] max out e in
      let empty : out' ≡ [] = encode_frames-nil max out' eo in
      let one : concat out ≡ bytes = ap concat (o ∙ ap (◌∷◌ bytes) empty) ∙ append-nil bytes in
      let d' = d ∙ ap (λ b. b ++ rest) one in
      let next = s.offset + length bytes in
      let f : (frame.txn_seq < 2 ^ 64 × (length frame.ops < 2 ^ 64) × All IsOp frame.ops) =
        (q, g.0.0, g.0.1) in
      rw one (
        ap (λ (k : ℕ). recover_loop k buf s) (let k : 1 + fuel ≡ suc fuel = omega arith in k)
            ∙ recover_loop-frame max frame bytes buf rest s (after_commit txn_seq group s next) m f
                eb d' fuel (scan_frame-commit txn_seq group s next c),
        drop-frame max frame bytes buf rest s (after_commit txn_seq group s next) m f eb d',
      )
  recover_loop-txn (group ∷ group' ∷ groups) out buf rest s fuel g n e c d =
      let frame = continues_frame txn_seq group in
      let (bytes, out', o, eb, eo) =
        encode_frames-cons frame (txn_frames txn_seq (group' ∷ groups)) max out e in
      let d' : drop s.offset buf ≡ bytes ++ (concat out' ++ rest) =
        d ∙ ap (λ o. concat o ++ rest) o ∙ append_assoc bytes (concat out') rest in
      let s' = after_continues txn_seq group s (s.offset + length bytes) in
      let f : (frame.txn_seq < 2 ^ 64 × (length frame.ops < 2 ^ 64) × All IsOp frame.ops) =
        (q, g.0.0, g.0.1) in
      let d'' = drop-frame max frame bytes buf (concat out' ++ rest) s s' m f eb d' in
      let k = length (group' ∷ groups) + fuel in
      let step =
        recover_loop-frame max frame bytes buf (concat out' ++ rest) s s' m f eb d' k
          (scan_frame-continues txn_seq group s (s.offset + length bytes) c) in
      let (r, t) =
        recover_loop-txn (group' ∷ groups) out' buf rest s' fuel g.1 (omega arith) eo (inr refl)
          d'' in
      let size : s.offset + length bytes + length (concat out') ≡ s.offset + length (concat out) =
        omega (arith, ap (λ o. length (concat o)) o, length-append bytes (concat out')) in
      let chain = append_assoc s.pending (frame ∷ []) (txn_frames txn_seq (group' ∷ groups)) in
      (
        ap (λ (k : ℕ). recover_loop k buf s)
              (let j : length (group ∷ group' ∷ groups) + fuel ≡ suc k = omega arith in j)
            ∙ step
            ∙ r
            ∙ ap₂
                (λ (c : List WalFrame) (n : ℕ). recover_loop fuel buf (record {
                  offset = n;
                  committed = s.committed ++ c;
                  pending = [];
                  pending_seq = none;
                  valid_prefix = n;
                }))
                chain size,
        rw size at t,
      )

  -- What is left of a frame of which bytes are missing.
  torn_front :
      (frame : WalFrame) (bytes more front back : List ℕ)
      → encode_frame_limited frame max ≡ ok bytes
      → front ++ back ≡ bytes ++ more
      → length front < length bytes
      → 0 < length front
      → decode_frame front ≡ err torn
  torn_front frame bytes more front back e c l f =
      let (p, a, b) = cut_later bytes more front back (sym c) (omega arith) in
      decode_frame-torn frame max bytes front p m e (sym a) f
        (omega (arith, ap length a, length-append front p))

  pub recover_loop-torn :
      (groups : List (List WalOp)) (out : List (List ℕ)) (buf front back : List ℕ) (s : Scan)
      (fuel : ℕ)
      → All GoodGroup groups
      → encode_frames (txn_frames txn_seq groups) max ≡ ok out
      → Chain txn_seq s
      → drop s.offset buf ≡ front
      → front ++ back ≡ concat out
      → 0 < length back
      → (recover_loop fuel buf s).committed ≡ s.committed
        × ((recover_loop fuel buf s).valid_prefix ≡ s.valid_prefix)
  unfolding txn_frames
  recover_loop-torn groups out buf front back s zero g e c d t l =
      unfold recover_loop in (refl, refl)
  recover_loop-torn [] out buf front back s (suc fuel) g e c d t l =
      let o = ap (λ o. length (concat o)) (encode_frames-nil max out e) in
      absurd (omega (arith, ap length t, length-append front back))
  recover_loop-torn (group ∷ []) out buf front back s (suc fuel) g e c d t l =
      let frame = commit_frame txn_seq group in
      let (bytes, out', o, eb, eo) = encode_frames-cons frame [] max out e in
      let empty : out' ≡ [] = encode_frames-nil max out' eo in
      let one : concat out ≡ bytes ++ [] = ap concat (o ∙ ap (◌∷◌ bytes) empty) in
      let short : length front < length bytes =
        omega (arith, ap length (t ∙ one), length-append front back, length-append bytes []) in
      let stop =
        recover_loop-stop (suc fuel) buf front s d
          (torn_front frame bytes [] front back eb (t ∙ one) short) in
      (ap (λ s. s.committed) stop, ap (λ s. s.valid_prefix) stop)
  recover_loop-torn (group ∷ group' ∷ groups) out buf front back s (suc fuel) g e c d t l =
      let frame = continues_frame txn_seq group in
      let (bytes, out', o, eb, eo) =
        encode_frames-cons frame (txn_frames txn_seq (group' ∷ groups)) max out e in
      let t' : front ++ back ≡ bytes ++ concat out' = t ∙ ap concat o in
      elim (Bool-cases (ltb (length front) (length bytes))) [
        | inl short ↦
            let stop =
              recover_loop-stop (suc fuel) buf front s d
                (torn_front frame bytes (concat out') front back eb t' (ground arith)) in
            (ap (λ s. s.committed) stop, ap (λ s. s.valid_prefix) stop)
        | inr long ↦
            let (p, a, b) = cut_later front back bytes (concat out') t' (ground arith) in
            let s' = after_continues txn_seq group s (s.offset + length bytes) in
            let f : (frame.txn_seq < 2 ^ 64 × (length frame.ops < 2 ^ 64) × All IsOp frame.ops) =
              (q, g.0.0, g.0.1) in
            let step =
              recover_loop-frame max frame bytes buf p s s' m f eb (d ∙ a) fuel
                (scan_frame-continues txn_seq group s (s.offset + length bytes) c) in
            let (x, y) =
              recover_loop-torn (group' ∷ groups) out' buf p back s' fuel g.1 eo (inr refl)
                (drop-frame max frame bytes buf p s s' m f eb (d ∙ a)) b l in
            (ap (λ s. s.committed) step ∙ x, ap (λ s. s.valid_prefix) step ∙ y)
      ]
