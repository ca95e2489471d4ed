-- ===== src/Fs/Wal/Recover/Crash.antt =====
-- The scan of crates/boa_idb_fs/src/wal.rs over a log of whole transactions and one that is torn.
use indexed_db_boa.Fs.Wal.{WalOp, WalFrame, max_frame_payload}
use indexed_db_boa.Fs.Wal.RoundTrip.{IsOp}
use indexed_db_boa.Fs.Wal.Pack.{txn_frames, encode_frames, encode_txn_frames_limited}
use indexed_db_boa.Fs.Wal.Pack.Total.{encode_txn_frames_limited-ok}
use indexed_db_boa.Fs.Wal.Recover.{recover_loop, recover_committed_frames}
use indexed_db_boa.Fs.Wal.Recover.Transactions.{
  encode_frames-nil, recover_loop-txn, recover_loop-torn,
}
use indexed_db_boa.Fs.Wal.Recover.Log.{
  log_bytes, stamp, frame_ops, txn_ops, IsTxn, frame_ops-txn_frames, good_groups,
  encode_frames-size, length-txn_frames, ready, log_bytes-nil, log_bytes-cons, Scanned,
  Scanned-empty, Scanned-append, txn_ops-cons, txn_ops-nil,
}
use indexed_db_boa.Base.{
  ℕ, ◌+◌, ◌-◌, ◌^◌, ◌<◌, ◌≤◌, ◌≡◌, refl, sym, ap, ◌∙◌, subst, List, [], ◌∷◌, ◌++◌, append_assoc, ok,
  length, All, drop, arith, inl, length-append, concat,
}

module _ (max : ℕ) (m : max ≤ max_frame_payload) where
  txn_groups :
      (txn_seq : ℕ) (ops : List WalOp) (groups : List (List WalOp)) (out : List (List ℕ))
      (buf rest : List ℕ) (committed : List WalFrame) (offset : ℕ)
      → IsTxn (txn_seq, ops)
      → concat groups ≡ ops
      → encode_frames (txn_frames txn_seq groups) max ≡ ok out
      → drop offset buf ≡ concat out ++ rest
      → Scanned buf rest committed offset (length (concat out)) (stamp txn_seq ops)
  txn_groups txn_seq ops [] out buf rest committed offset h c e d =
      let o = ap concat (encode_frames-nil max out (unfold txn_frames in e)) in
      subst (Scanned buf rest committed offset (length (concat out)))
        (let s : [] ≡ stamp txn_seq [] = unfold stamp in refl in s ∙ ap (stamp txn_seq) c)
        (Scanned-empty buf rest committed offset (length (concat out)) (d ∙ ap (λ b. b ++ rest) o)
          (ap length o))
  txn_groups txn_seq ops (group ∷ groups) out buf rest committed offset h c e d =
      let gs = group ∷ groups in
      let good =
        good_groups gs (subst (λ (xs : List WalOp). length xs < 2 ^ 64) (sym c) h.1)
          (subst (All IsOp) (sym c) h.2) in
      let s = ready committed offset in
      let run = λ (fuel : ℕ).
        recover_loop-txn max txn_seq m h.0 gs out buf rest s fuel good (omega arith) e
          (inl (refl, refl)) d in
      (
        length gs,
        txn_frames txn_seq gs,
        omega (
          arith,
          encode_frames-size (txn_frames txn_seq gs) max out e,
          length-txn_frames txn_seq gs,
        ),
        frame_ops-txn_frames txn_seq gs ∙ ap (stamp txn_seq) c,
        (run 0).1,
        λ fuel. (run fuel).0,
      )

  recover_loop-log :
      (txns : List (ℕ × List WalOp)) (bytes buf rest : List ℕ) (committed : List WalFrame)
      (offset : ℕ)
      → All IsTxn txns
      → log_bytes max txns ≡ ok bytes
      → drop offset buf ≡ bytes ++ rest
      → Scanned buf rest committed offset (length bytes) (txn_ops txns)
  recover_loop-log [] bytes buf rest committed offset h e d =
      let b = log_bytes-nil max bytes e in
      subst (Scanned buf rest committed offset (length bytes)) (sym txn_ops-nil) (
        Scanned-empty buf rest committed offset (length bytes) (d ∙ ap (λ b. b ++ rest) b)
          (ap length b))
  recover_loop-log (txn ∷ txns) bytes buf rest committed offset h e d =
      let (out, more, eo, em, b) = log_bytes-cons max txn txns bytes e in
      let (groups, (c, fit), f) = encode_txn_frames_limited-ok txn.0 txn.1 max out eo in
      let d' : drop offset buf ≡ concat out ++ (more ++ rest) =
        d ∙ ap (λ b. b ++ rest) (sym b) ∙ append_assoc (concat out) more rest in
      let one = txn_groups txn.0 txn.1 groups out buf (more ++ rest) committed offset h.0 c f d' in
      subst (Scanned buf rest committed offset (length bytes)) (txn_ops-cons txn txns) (
        Scanned-append buf (more ++ rest) rest committed offset (length (concat out)) (length more)
          (length bytes) (stamp txn.0 txn.1) (txn_ops txns)
          (sym (length-append (concat out) more) ∙ ap length b) one
          (λ committed'.
            recover_loop-log txns more buf rest committed' (offset + length (concat out)) h.1 em
              one.4))

  -- A crash while a transaction is written: on a log to which well-typed transactions were appended
  -- and then some, but not all, of the bytes of the frames of one more, the scan gives exactly the
  -- operations of the complete transactions, in their order and with their sequence numbers, and as the
  -- valid prefix exactly the bytes of these. The frame limit is 64 MiB or less.
  pub recover_committed_frames-crash :
      (txns : List (ℕ × List WalOp)) (last : ℕ × List WalOp) (bytes front back : List ℕ)
      (out : List (List ℕ))
      → All IsTxn txns
      → IsTxn last
      → log_bytes max txns ≡ ok bytes
      → encode_txn_frames_limited last.0 last.1 max ≡ ok out
      → front ++ back ≡ concat out
      → 0 < length back
      → frame_ops (recover_committed_frames (bytes ++ front)).frames ≡ txn_ops txns
        × ((recover_committed_frames (bytes ++ front)).valid_prefix_len ≡ length bytes)
  unfolding recover_committed_frames
  recover_committed_frames-crash txns last bytes front back out h hl e el t l =
      let buf = bytes ++ front in
      let (k, fs, lk, o, d, r) = recover_loop-log txns bytes buf front [] 0 h e refl in
      let (groups, (c, fit), f) = encode_txn_frames_limited-ok last.0 last.1 max out el in
      let good =
        good_groups groups (subst (λ (xs : List WalOp). length xs < 2 ^ 64) (sym c) hl.1)
          (subst (All IsOp) (sym c) hl.2) in
      let fuel = length buf - k in
      let n : length buf ≡ k + fuel = omega (arith, length-append bytes front) in
      let run : recover_loop (length buf) buf (ready [] 0)
          ≡ recover_loop fuel buf (ready fs (0 + length bytes)) =
        ap (λ (n : ℕ). recover_loop n buf (ready [] 0)) n ∙ r fuel in
      let (x, y) =
        recover_loop-torn max last.0 m hl.0 groups out buf front back (ready fs (0 + length bytes))
          fuel good f (inl (refl, refl)) d t l in
      (
        ap frame_ops (ap (λ s. s.committed) run ∙ x) ∙ o,
        ap (λ s. s.valid_prefix) run ∙ y ∙ omega arith,
      )
