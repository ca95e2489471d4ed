-- ===== src/Fs/Wal/Pack/Total.antt =====
-- When the packer of crates/boa_idb_fs/src/wal.rs succeeds, what it gives, and the error otherwise.
use indexed_db_boa.Fs.Wal.{
  WalOp, WalFrame, CodecError, payload_too_large, encode_payload, encode_frame_limited,
}
use indexed_db_boa.Fs.Wal.Pack.{
  op_encoded_len, payload_len, Packer, pack_ops, finish_groups, no_groups, group_ops, txn_frames,
  encode_frames, encode_txn_frames_limited,
}
use indexed_db_boa.Fs.Wal.Pack.Groups.{Fits, Packed, pack_op-Packed}
use indexed_db_boa.Base.{
  ℕ, suc, ◌+◌, ◌<◌, ◌≤◌, ◌≡◌, refl, sym, ap, ◌∙◌, false, List, [], ◌∷◌, ◌++◌, append_assoc,
  append-nil, ok, err, ok_inj, Result-cases, length, All, All-append, All-middle, ltb, ◌==◌, arith,
  inl, inr, ◌⊎◌, concat, concat-append, subst,
}

abbrev pub OpFits : ℕ → WalOp → Type 0
OpFits max op = op_encoded_len op + 1 ≤ max

-- The error names the first operation that fits in no frame.
abbrev pub FirstTooLong : ℕ → List WalOp → CodecError → Type 0
FirstTooLong max ops e =
    (before : List WalOp) × (op : WalOp) × (after : List WalOp) × (ops ≡ before ++ op ∷ after)
    × All (OpFits max) before
    × (max < op_encoded_len op + 1)
    × (e ≡ payload_too_large (op_encoded_len op + 1))

pack_ops_cases :
    (max : ℕ) (done : List WalOp) (p : Packer) (ops : List WalOp)
    → Packed max done p
    → ((p' : Packer) × (pack_ops max p ops ≡ ok p')
        × Packed max (done ++ ops) p'
        × All (OpFits max) ops)
      ⊎ ((e : CodecError) × (pack_ops max p ops ≡ err e) × FirstTooLong max ops e)
unfolding pack_ops
pack_ops_cases max done p [] h =
    inl (p, refl, subst (λ d. Packed max d p) (sym (append-nil done)) h, tt)
pack_ops_cases max done p (op ∷ ops) h =
    elim (pack_op-Packed max done p.groups op p.current p.current_len h) [
      | inl (p', e, h', f) ↦ elim (pack_ops_cases max (done ++ op ∷ []) p' ops h') [
        | inl (q, e', k, fs) ↦
            inl
              (q, rw e e', subst (λ d. Packed max d q) (append_assoc done (op ∷ []) ops) k, (f, fs))
        | inr (x, e', (before, o, after, c, fs, l, y)) ↦
            inr (x, rw e e', (op ∷ before, o, after, ap (◌∷◌ op) c, (f, fs), l, y))
      ]
      | inr (l, e) ↦ inr (_, rw e refl, ([], op, ops, refl, tt, l, refl))
    ]

finish_groups-Packed :
    (max : ℕ) (done : List WalOp) (groups : List (List WalOp)) (current : List WalOp) (len : ℕ)
    → Packed max done (record { groups = groups; current = current; current_len = len })
    → concat (finish_groups (record { groups = groups; current = current; current_len = len }))
        ≡ done
      × All
          (Fits max)
          (finish_groups (record { groups = groups; current = current; current_len = len }))
unfolding finish_groups
finish_groups-Packed max done groups [] len h = (sym (append-nil (concat groups)) ∙ h.0, h.1)
finish_groups-Packed max done groups (c ∷ cs) len h =
    let e : (suc (length cs) == 0) ≡ false = ground arith in
    rw e (
      concat-append groups ((c ∷ cs) ∷ []) ∙ ap (◌++◌ (concat groups)) (append-nil (c ∷ cs)) ∙ h.0,
      All-append (Fits max) groups ((c ∷ cs) ∷ []) h.1 ((omega arith, h.3 (omega arith)), tt),
    )

abbrev pub Grouped : ℕ → List WalOp → List (List WalOp) → Type 0
Grouped max ops groups = concat groups ≡ ops × All (Fits max) groups

group_ops_cases :
    (max : ℕ) (ops : List WalOp)
    → ((groups : List (List WalOp)) × (group_ops max ops ≡ ok groups)
        × Grouped max ops groups
        × All (OpFits max) ops)
      ⊎ ((e : CodecError) × (group_ops max ops ≡ err e) × FirstTooLong max ops e)
unfolding group_ops
group_ops_cases max ops =
    elim (pack_ops_cases max [] no_groups ops
      (refl, tt, (unfold indexed_db_boa.Fs.Wal.encode_ops in refl), λ h. absurd (omega arith))) [
        | inl (p, e, h, fs) ↦ inl (
          finish_groups p,
          rw e refl,
          finish_groups-Packed max ops p.groups p.current p.current_len h,
          fs,
        )
        | inr (x, e, f) ↦ inr (x, rw e refl, f)
      ]

encode_frame_limited-Fits :
    (frame : WalFrame) (max : ℕ)
    → payload_len frame.ops ≤ max
    → (bytes : List ℕ) × (encode_frame_limited frame max ≡ ok bytes)
unfolding payload_len encode_frame_limited
encode_frame_limited-Fits frame max h =
    let e : ltb max (length (encode_payload frame.ops)) ≡ false = ground arith in
    elim (Result-cases (encode_frame_limited frame max)) [
      | inl r ↦ r
      | inr (x, f) ↦ let f' = rw e at f in ground arith
    ]

encode_frames-Fits :
    (txn_seq : ℕ) (groups : List (List WalOp)) (max : ℕ)
    → All (Fits max) groups
    → (out : List (List ℕ)) × (encode_frames (txn_frames txn_seq groups) max ≡ ok out)
unfolding encode_frames txn_frames
encode_frames-Fits txn_seq [] max h = ([], refl)
encode_frames-Fits txn_seq (group ∷ []) max h =
    let (b, e) =
      encode_frame_limited-Fits (record { txn_seq = txn_seq; flags = 2; ops = group }) max h.0.1 in
    (b ∷ [], rw e refl)
encode_frames-Fits txn_seq (group ∷ group' ∷ groups) max h =
    let (b, e) =
      encode_frame_limited-Fits (record { txn_seq = txn_seq; flags = 1; ops = group }) max h.0.1 in
    let (out, f) = encode_frames-Fits txn_seq (group' ∷ groups) max h.1 in (b ∷ out, rw (e, f) refl)

-- The bytes of the frames of a transaction: its operations in their order, in groups that are not
-- empty and whose payloads the limit allows.
abbrev pub Framed : ℕ → List WalOp → ℕ → List (List ℕ) → Type 0
Framed txn_seq ops max out =
    (groups : List (List WalOp)) × Grouped max ops groups
    × (encode_frames (txn_frames txn_seq groups) max ≡ ok out)

encode_cases :
    (txn_seq : ℕ) (ops : List WalOp) (max : ℕ)
    → ((out : List (List ℕ)) × (encode_txn_frames_limited txn_seq ops max ≡ ok out)
        × Framed txn_seq ops max out)
      ⊎ ((e : CodecError) × (encode_txn_frames_limited txn_seq ops max ≡ err e)
          × FirstTooLong max ops e)
unfolding encode_txn_frames_limited
encode_cases txn_seq [] max =
    inl ([], refl, ([], (refl, tt), (unfold txn_frames encode_frames in refl)))
encode_cases txn_seq (op ∷ ops) max =
    let z : (suc (length ops) == 0) ≡ false = ground arith in
    elim (group_ops_cases max (op ∷ ops)) [
      | inl (groups, e, g, fs) ↦
          let (out, f) = encode_frames-Fits txn_seq groups max g.1 in
          inl (out, rw (z, e) f, (groups, g, f))
      | inr (x, e, f) ↦ inr (x, rw (z, e) refl, f)
    ]

-- A transaction of which each operation fits in a frame on its own is always cut into frames: the
-- groups of the frames hold its operations in their order, none is empty, and no payload is longer
-- than the limit.
pub encode_txn_frames_limited-total :
    (txn_seq : ℕ) (ops : List WalOp) (max : ℕ)
    → All (OpFits max) ops
    → (out : List (List ℕ)) × (encode_txn_frames_limited txn_seq ops max ≡ ok out)
      × Framed txn_seq ops max out
encode_txn_frames_limited-total txn_seq ops max h = elim (encode_cases txn_seq ops max) [
  | inl r ↦ r
  | inr (x, e, (before, op, after, c, fs, l, y)) ↦
      let f = All-middle (OpFits max) before op after (subst (All (OpFits max)) c h) in
      absurd (omega arith)
]

-- When a transaction is refused, the error is that of the first operation that fits in no frame, with
-- the length that its frame's payload would have.
pub encode_txn_frames_limited-error :
    (txn_seq : ℕ) (ops : List WalOp) (max : ℕ) (e : CodecError)
    → encode_txn_frames_limited txn_seq ops max ≡ err e
    → FirstTooLong max ops e
encode_txn_frames_limited-error txn_seq ops max e h = elim (encode_cases txn_seq ops max) [
  | inl (out, f, g) ↦ absurd (let k = sym f ∙ h in cc)
  | inr (x, f, g) ↦ subst (FirstTooLong max ops) (let k = sym f ∙ h in cc) g
]

-- What a successful call gives.
pub encode_txn_frames_limited-ok :
    (txn_seq : ℕ) (ops : List WalOp) (max : ℕ) (out : List (List ℕ))
    → encode_txn_frames_limited txn_seq ops max ≡ ok out
    → Framed txn_seq ops max out
encode_txn_frames_limited-ok txn_seq ops max out h = elim (encode_cases txn_seq ops max) [
  | inl (out', f, g) ↦ subst (Framed txn_seq ops max) (ok_inj (sym f ∙ h)) g
  | inr (x, f, g) ↦ absurd (let k = sym f ∙ h in cc)
]
