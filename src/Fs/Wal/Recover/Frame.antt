-- ===== src/Fs/Wal/Recover/Frame.antt =====
-- One round of the scan of crates/boa_idb_fs/src/wal.rs: a frame of a chain, a torn frame, the end.
use indexed_db_boa.Fs.Wal.{
  WalOp, WalFrame, torn, flag_commit, flag_continues, encode_frame_limited, max_frame_payload,
}
use indexed_db_boa.Fs.Wal.Decode.{decode_frame}
use indexed_db_boa.Fs.Wal.Frames.{IsFrame, encode_frame_limited-size, decode_frame-encode_frame}
use indexed_db_boa.Fs.Wal.Recover.{
  Scan, accept_frame, scan_frame, scan_next, scan_step, recover_loop,
}
use indexed_db_boa.Base.{
  ℕ, zero, suc, ◌+◌, ◌<◌, ◌≤◌, ◌≡◌, refl, ap, ◌∙◌, true, List, [], ◌∷◌, ◌++◌, Option, none, some,
  ok, err, length, drop, drop-add, length-drop, drop-append, ltb, ◌==◌, arith, Bool-cases, inl, inr,
  length-append, ◌⊎◌,
}

-- A round of the loop, by what it finds.
pub recover_loop_round :
    (fuel : ℕ) (buf : List ℕ) (s : Scan) (o : Option Scan)
    → scan_step buf s ≡ o
    → recover_loop (suc fuel) buf s ≡ elim o [ none ↦ s | some s' ↦ recover_loop fuel buf s' ]
unfolding recover_loop
recover_loop_round fuel buf s o e =
    ap (λ (o : Option Scan). elim o [ none ↦ s | some s' ↦ recover_loop fuel buf s' ]) e

scan_step-stop :
    (buf front : List ℕ) (s : Scan)
    → drop s.offset buf ≡ front
    → (0 < length front → decode_frame front ≡ err torn)
    → scan_step buf s ≡ none
unfolding scan_step scan_next
scan_step-stop buf front s d t = elim (Bool-cases (ltb s.offset (length buf))) [
  | inl e ↦ rw (e, d, t (ground (arith, length-drop s.offset buf, ap length d))) refl
  | inr e ↦ rw e refl
]

-- The loop leaves a torn frame, and an empty rest, as it is.
pub recover_loop-stop :
    (fuel : ℕ) (buf front : List ℕ) (s : Scan)
    → drop s.offset buf ≡ front
    → (0 < length front → decode_frame front ≡ err torn)
    → recover_loop fuel buf s ≡ s
recover_loop-stop zero buf front s d t = unfold recover_loop in refl
recover_loop-stop (suc fuel) buf front s d t =
    recover_loop_round fuel buf s none (scan_step-stop buf front s d t)

-- One frame in front of what is left.
module _ (max : ℕ) (frame : WalFrame) (bytes buf rest : List ℕ) (s s' : Scan)
    (m : max ≤ max_frame_payload) (h : IsFrame frame)
    (e : encode_frame_limited frame max ≡ ok bytes) (d : drop s.offset buf ≡ bytes ++ rest) where
  scan_step-frame : scan_step buf s ≡ scan_frame s frame (s.offset + length bytes)
  unfolding scan_step scan_next
  scan_step-frame =
      let b : ltb s.offset (length buf) ≡ true = ground (
        arith,
        length-drop s.offset buf,
        ap length d,
        length-append bytes rest,
        encode_frame_limited-size frame max bytes e,
      ) in
      rw (b, d, decode_frame-encode_frame frame max bytes rest m h e) refl

  pub recover_loop-frame :
      (fuel : ℕ)
      → scan_frame s frame (s.offset + length bytes) ≡ some s'
      → recover_loop (suc fuel) buf s ≡ recover_loop fuel buf s'
  recover_loop-frame fuel f = recover_loop_round fuel buf s (some s') (scan_step-frame ∙ f)

  pub drop-frame : drop (s.offset + length bytes) buf ≡ rest
  drop-frame =
      drop-add s.offset (length bytes) buf ∙ ap (drop (length bytes)) d ∙ drop-append bytes rest

-- What is pending when a frame of transaction `txn_seq` may follow.
abbrev pub Chain : ℕ → Scan → Type 0
Chain txn_seq s = ((s.pending ≡ []) × (s.pending_seq ≡ none)) ⊎ (s.pending_seq ≡ some txn_seq)

abbrev pub commit_frame : ℕ → List WalOp → WalFrame
commit_frame txn_seq group = record { txn_seq = txn_seq; flags = flag_commit; ops = group }

abbrev pub continues_frame : ℕ → List WalOp → WalFrame
continues_frame txn_seq group = record { txn_seq = txn_seq; flags = flag_continues; ops = group }

module _ (txn_seq : ℕ) (group : List WalOp) (s : Scan) (next : ℕ) where
  abbrev pub after_commit : Scan
  after_commit = record {
    offset = next;
    committed = s.committed ++ (s.pending ++ commit_frame txn_seq group ∷ []);
    pending = [];
    pending_seq = none;
    valid_prefix = next;
  }

  abbrev pub after_continues : Scan
  after_continues = record s {
    offset = next;
    pending = s.pending ++ continues_frame txn_seq group ∷ [];
    pending_seq = some txn_seq;
  }

  same_seq : (txn_seq == txn_seq) ≡ true
  same_seq = ground arith

  pub scan_frame-commit :
      Chain txn_seq s → scan_frame s (commit_frame txn_seq group) next ≡ some after_commit
  unfolding scan_frame accept_frame
  scan_frame-commit (inl (p, q)) = rw (q, p) refl
  scan_frame-commit (inr q) = rw (q, same_seq) refl

  pub scan_frame-continues :
      Chain txn_seq s → scan_frame s (continues_frame txn_seq group) next ≡ some after_continues
  unfolding scan_frame accept_frame
  scan_frame-continues (inl (p, q)) = rw (q, p) refl
  scan_frame-continues (inr q) = rw (q, same_seq) refl
