-- ===== src/Fs/Wal/Recover/Log.antt =====
-- The scan of crates/boa_idb_fs/src/wal.rs over a log to which transactions were appended, the last
-- of them not to its end.
use indexed_db_boa.Fs.Wal.{WalOp, WalFrame, CodecError}
use indexed_db_boa.Fs.Wal.RoundTrip.{IsOp}
use indexed_db_boa.Fs.Wal.Frames.{encode_frame_limited-size}
use indexed_db_boa.Fs.Wal.Pack.{txn_frames, encode_frames, encode_txn_frames_limited}
use indexed_db_boa.Fs.Wal.Recover.{Scan, recover_loop}
use indexed_db_boa.Fs.Wal.Recover.Transactions.{GoodGroup, encode_frames-cons}
use indexed_db_boa.Base.{
  ℕ, suc, ◌+◌, ◌^◌, ◌<◌, ◌≤◌, ◌≡◌, refl, sym, ap, ap₂, ◌∙◌, List, [], ◌∷◌, ◌++◌, append_assoc,
  append-nil, none, Result, ok, ◌>>=◌, ok_inj, Result-cases, length, All, drop, arith, inl, inr,
  length-append, concat, All-front, All-back,
}

-- The bytes in the log after the transactions of a list, each with its sequence number, were appended.
unfoldable pub log_bytes : ℕ → List (ℕ × List WalOp) → Result CodecError (List ℕ)
log_bytes max [] = ok []
log_bytes max ((txn_seq, ops) ∷ txns) = encode_txn_frames_limited txn_seq ops max >>= λ out.
    log_bytes max txns >>= λ rest. ok (concat out ++ rest)

-- Operations, each with the number of its transaction.
unfoldable pub stamp : ℕ → List WalOp → List (ℕ × WalOp)
stamp txn_seq [] = []
stamp txn_seq (op ∷ ops) = (txn_seq, op) ∷ stamp txn_seq ops

unfoldable pub frame_ops : List WalFrame → List (ℕ × WalOp)
frame_ops [] = []
frame_ops (frame ∷ frames) = stamp frame.txn_seq frame.ops ++ frame_ops frames

unfoldable pub txn_ops : List (ℕ × List WalOp) → List (ℕ × WalOp)
txn_ops [] = []
txn_ops ((txn_seq, ops) ∷ txns) = stamp txn_seq ops ++ txn_ops txns

-- The number and the operations of a transaction are machine words, and so is how many there are.
abbrev pub IsTxn : ℕ × List WalOp → Type 0
IsTxn (txn_seq, ops) = txn_seq < 2 ^ 64 × (length ops < 2 ^ 64) × All IsOp ops

stamp-append :
    (txn_seq : ℕ) (xs ys : List WalOp)
    → stamp txn_seq (xs ++ ys) ≡ stamp txn_seq xs ++ stamp txn_seq ys
unfolding stamp
stamp-append txn_seq [] ys = refl
stamp-append txn_seq (x ∷ xs) ys = ap (◌∷◌ (txn_seq, x)) (stamp-append txn_seq xs ys)

frame_ops-append : (xs ys : List WalFrame) → frame_ops (xs ++ ys) ≡ frame_ops xs ++ frame_ops ys
unfolding frame_ops
frame_ops-append [] ys = refl
frame_ops-append (x ∷ xs) ys =
    ap (◌++◌ (stamp x.txn_seq x.ops)) (frame_ops-append xs ys)
    ∙ sym (append_assoc (stamp x.txn_seq x.ops) (frame_ops xs) (frame_ops ys))

pub frame_ops-txn_frames :
    (txn_seq : ℕ) (groups : List (List WalOp))
    → frame_ops (txn_frames txn_seq groups) ≡ stamp txn_seq (concat groups)
unfolding frame_ops txn_frames
frame_ops-txn_frames txn_seq [] = unfold stamp in refl
frame_ops-txn_frames txn_seq (group ∷ []) =
    sym (stamp-append txn_seq group [] ∙ ap (◌++◌ (stamp txn_seq group)) (unfold stamp in refl))
frame_ops-txn_frames txn_seq (group ∷ group' ∷ groups) =
    ap (◌++◌ (stamp txn_seq group)) (frame_ops-txn_frames txn_seq (group' ∷ groups))
    ∙ sym (stamp-append txn_seq group (concat (group' ∷ groups)))

pub good_groups :
    (groups : List (List WalOp))
    → length (concat groups) < 2 ^ 64
    → All IsOp (concat groups)
    → All GoodGroup groups
good_groups [] l h = tt
good_groups (group ∷ groups) l h =
    let n = length-append group (concat groups) in
    (
      (omega arith, All-front IsOp group (concat groups) h),
      good_groups groups (omega arith) (All-back IsOp group (concat groups) h),
    )

-- There are no more frames than bytes.
pub encode_frames-size :
    (frames : List WalFrame) (max : ℕ) (out : List (List ℕ))
    → encode_frames frames max ≡ ok out
    → length frames ≤ length (concat out)
encode_frames-size [] max out e = omega arith
encode_frames-size (frame ∷ frames) max out e =
    let (bytes, out', o, eb, eo) = encode_frames-cons frame frames max out e in
    omega (
      arith,
      ap (λ o. length (concat o)) o,
      length-append bytes (concat out'),
      encode_frame_limited-size frame max bytes eb,
      encode_frames-size frames max out' eo,
    )

pub length-txn_frames :
    (txn_seq : ℕ) (groups : List (List WalOp)) → length (txn_frames txn_seq groups) ≡ length groups
unfolding txn_frames
length-txn_frames txn_seq [] = refl
length-txn_frames txn_seq (group ∷ []) = refl
length-txn_frames txn_seq (group ∷ group' ∷ groups) =
    ap suc (length-txn_frames txn_seq (group' ∷ groups))

abbrev pub ready : List WalFrame → ℕ → Scan
ready committed offset = record {
  offset = offset;
  committed = committed;
  pending = [];
  pending_seq = none;
  valid_prefix = offset;
}

pub log_bytes-nil : (max : ℕ) (bytes : List ℕ) → log_bytes max [] ≡ ok bytes → bytes ≡ []
unfolding log_bytes
log_bytes-nil max bytes e = sym (ok_inj e)

pub log_bytes-cons :
    (max : ℕ) (txn : ℕ × List WalOp) (txns : List (ℕ × List WalOp)) (bytes : List ℕ)
    → log_bytes max (txn ∷ txns) ≡ ok bytes
    → (out : List (List ℕ)) × (rest : List ℕ) × (encode_txn_frames_limited txn.0 txn.1 max ≡ ok out)
      × (log_bytes max txns ≡ ok rest)
      × (concat out ++ rest ≡ bytes)
unfolding log_bytes
log_bytes-cons max (txn_seq, ops) txns bytes h =
    elim (Result-cases (encode_txn_frames_limited txn_seq ops max)) [
      | inl (out, e) ↦ elim (Result-cases (log_bytes max txns)) [
        | inl (rest, f) ↦ (out, rest, e, f, ok_inj (rw (e, f) at h))
        | inr (x, f) ↦ let h' = rw (e, f) at h in ground arith
      ]
      | inr (x, e) ↦ let h' = rw e at h in ground arith
    ]

-- From `offset` on, the scan commits `ops` with `size` bytes, at most as many rounds, and `rest` is left.
abbrev pub Scanned : List ℕ → List ℕ → List WalFrame → ℕ → ℕ → List (ℕ × WalOp) → Type 0
Scanned buf rest committed offset size ops =
    (rounds : ℕ) × (frames : List WalFrame) × (rounds ≤ size)
    × (frame_ops frames ≡ ops)
    × (drop (offset + size) buf ≡ rest)
    × ((fuel : ℕ)
        → recover_loop (rounds + fuel) buf (ready committed offset)
          ≡ recover_loop fuel buf (ready (committed ++ frames) (offset + size)))

pub Scanned-empty :
    (buf rest : List ℕ) (committed : List WalFrame) (offset size : ℕ)
    → drop offset buf ≡ rest
    → size ≡ 0
    → Scanned buf rest committed offset size []
Scanned-empty buf rest committed offset size d z =
    let o : offset + size ≡ offset = omega arith in
    (
      0,
      [],
      omega arith,
      (unfold frame_ops in refl),
      ap (λ (k : ℕ). drop k buf) o ∙ d,
      λ fuel.
          ap (λ (n : ℕ). recover_loop n buf (ready committed offset))
            (let n : 0 + fuel ≡ fuel = omega arith in n)
          ∙ ap₂ (λ (c : List WalFrame) (k : ℕ). recover_loop fuel buf (ready c k))
              (sym (append-nil committed)) (sym o),
    )

pub txn_ops-cons :
    (txn : ℕ × List WalOp) (txns : List (ℕ × List WalOp))
    → stamp txn.0 txn.1 ++ txn_ops txns ≡ txn_ops (txn ∷ txns)
unfolding txn_ops
txn_ops-cons txn txns = refl

pub txn_ops-nil : txn_ops [] ≡ []
unfolding txn_ops
txn_ops-nil = refl

pub Scanned-append :
    (buf rest rest' : List ℕ) (committed : List WalFrame) (offset size size' total : ℕ)
    (ops ops' : List (ℕ × WalOp))
    → size + size' ≡ total
    → Scanned buf rest committed offset size ops
    → ((committed' : List WalFrame) → Scanned buf rest' committed' (offset + size) size' ops')
    → Scanned buf rest' committed offset total (ops ++ ops')
Scanned-append buf rest rest' committed offset size size' total ops ops' e (k, fs, l, o, d, r)
      next =
    let (k', fs', l', o', d', r') = next (committed ++ fs) in
    let t : offset + size + size' ≡ offset + total = omega (arith, e) in
    (
      k + k',
      fs ++ fs',
      omega (arith, e),
      frame_ops-append fs fs' ∙ ap₂ (λ xs ys. xs ++ ys) o o',
      rw t at d',
      λ fuel.
          ap (λ (n : ℕ). recover_loop n buf (ready committed offset))
            (let n : k + k' + fuel ≡ k + (k' + fuel) = omega arith in n)
          ∙ r (k' + fuel)
          ∙ r' fuel
          ∙ ap₂ (λ (c : List WalFrame) (n : ℕ). recover_loop fuel buf (ready c n))
              (append_assoc committed fs fs') t,
    )
