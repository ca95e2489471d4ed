-- ===== src/Fs/Wal/Recover/Total.antt =====
-- The scan of crates/boa_idb_fs/src/wal.rs on any bytes at all: it ends, and inside the buffer.
use indexed_db_boa.Clone.Crc.{crc32c}
use indexed_db_boa.Fs.Wal.{
  WalFrame, CodecError, max_frame_payload, wal_magic, flag_commit, flag_continues,
}
use indexed_db_boa.Fs.Wal.Decode.{from_le_bytes, decode_ops, decode_body, decode_frame}
use indexed_db_boa.Fs.Wal.Recover.{
  Scan, scan_start, accept_frame, scan_frame, scan_next, scan_step, recover_loop,
  recover_committed_frames,
}
use indexed_db_boa.Fs.Wal.Recover.Frame.{recover_loop_round}
use indexed_db_boa.Base.{
  ℕ, zero, suc, ◌+◌, ◌<◌, ◌≤◌, ◌≡◌, refl, sym, ap, subst, ◌∙◌, false, not, ◌&&◌, List, Option, none,
  some, Option-cases, Result-cases, ok, err, ok_inj, Result, length, drop, take, length-drop, ltb,
  ◌==◌, arith, Bool-cases, inl, inr, ◌⊎◌,
}

some_inj {ℓ} : {A : Type ℓ} {a b : A} → ◌≡◌ {A = Option A} (some a) (some b) → a ≡ b
some_inj {a = a} e = ap (λ o. elim o [ none ↦ a | some x ↦ x ]) e

-- What is decoded lies within the input, and is not empty.
decode_body-Inside :
    (len : ℕ) (input : List ℕ) (frame : WalFrame) (n : ℕ)
    → decode_body len input ≡ ok (some (frame, n))
    → 21 ≤ n × (n ≤ length input)
unfolding decode_body
decode_body-Inside len input frame n h = elim (Bool-cases (ltb max_frame_payload len)) [
  | inl a ↦ let h' = rw a at h in ground arith
  | inr a ↦ elim (Bool-cases (ltb (length input) (4 + 4 + 8 + 1 + len + 4))) [
    | inl b ↦ let h' = rw (a, b) at h in ground arith
    | inr b ↦
        let expected = from_le_bytes (take 4 (drop (4 + 4 + 8 + 1 + len) input)) in
        let actual = crc32c (take (4 + 4 + 8 + 1 + len) input) in
        elim (Bool-cases (expected == actual)) [
          | inl c ↦ elim (Result-cases (decode_ops (take len (drop 17 input)))) [
            | inl (ops, d) ↦
                let e : 4 + 4 + 8 + 1 + len + 4 ≡ n =
                  ap (λ p. p.1) (some_inj (ok_inj (rw (a, b, c, d) at h))) in
                ground arith
            | inr (x, d) ↦ let h' = rw (a, b, c, d) at h in ground arith
          ]
          | inr c ↦ let h' = rw (a, b, c) at h in ground arith
        ]
  ]
]

decode_frame-Inside :
    (input : List ℕ) (frame : WalFrame) (n : ℕ)
    → decode_frame input ≡ ok (some (frame, n))
    → 21 ≤ n × (n ≤ length input)
unfolding decode_frame
decode_frame-Inside input frame n h = elim (Bool-cases (length input == 0)) [
  | inl a ↦ let h' = rw a at h in ground arith
  | inr a ↦ elim (Bool-cases (ltb (length input) (4 + 4 + 8 + 1 + 4))) [
    | inl b ↦ let h' = rw (a, b) at h in ground arith
    | inr b ↦ elim (Bool-cases (from_le_bytes (take 4 input) == wal_magic)) [
      | inl c ↦
          decode_body-Inside (from_le_bytes (take 4 (drop 4 input))) input frame n
            (rw (a, b, c) at h)
      | inr c ↦ let h' = rw (a, b, c) at h in ground arith
    ]
  ]
]

-- The scan goes on behind the frame, and its valid prefix stays or ends there.
abbrev Moved : Scan → ℕ → Scan → Type 0
Moved s next s' =
    (s'.offset ≡ next) × ((s'.valid_prefix ≡ s.valid_prefix) ⊎ (s'.valid_prefix ≡ next))

moved :
    (s s1 s' : Scan) (next : ℕ)
    → Moved s next s1
    → ◌≡◌ {A = Option Scan} (some s1) (some s')
    → Moved s next s'
moved s s1 s' next m e = subst (Moved s next) (some_inj e) m

accept_frame-Moved :
    (s s' : Scan) (frame : WalFrame) (next : ℕ) (o : Option ℕ)
    → accept_frame s frame next o ≡ some s'
    → Moved s next s'
unfolding accept_frame
accept_frame-Moved s s' frame next none h = elim (Bool-cases (frame.flags == flag_commit)) [
  | inl a ↦ moved s _ s' next (refl, inr refl) (rw a at h)
  | inr a ↦ moved s _ s' next (refl, inl refl) (rw a at h)
]
accept_frame-Moved s s' frame next (some seq) h = elim (Bool-cases (frame.txn_seq == seq)) [
  | inl a ↦ elim (Bool-cases (frame.flags == flag_continues)) [
    | inl b ↦ moved s _ s' next (refl, inl refl) (rw (a, b) at h)
    | inr b ↦ moved s _ s' next (refl, inr refl) (rw (a, b) at h)
  ]
  | inr a ↦ let h' = rw a at h in ground arith
]

scan_frame-Moved :
    (s s' : Scan) (frame : WalFrame) (next : ℕ)
    → scan_frame s frame next ≡ some s'
    → Moved s next s'
unfolding scan_frame
scan_frame-Moved s s' frame next h =
    elim (Bool-cases (not (frame.flags == flag_commit) && not (frame.flags == flag_continues))) [
      | inl a ↦ let h' = rw a at h in ground arith
      | inr a ↦ accept_frame-Moved s s' frame next s.pending_seq (rw a at h)
    ]

scan_next-Moved :
    (s s' : Scan) (r : Result CodecError (Option (WalFrame × ℕ)))
    → scan_next s r ≡ some s'
    → (frame : WalFrame) × (n : ℕ) × (r ≡ ok (some (frame, n))) × Moved s (s.offset + n) s'
unfolding scan_next
scan_next-Moved s s' (ok none) h = ground arith
scan_next-Moved s s' (ok (some (frame, n))) h =
    (frame, n, refl, scan_frame-Moved s s' frame (s.offset + n) h)
scan_next-Moved s s' (err e) h = ground arith

scan_step-Moved :
    (buf : List ℕ) (s s' : Scan)
    → scan_step buf s ≡ some s'
    → (next : ℕ) × (s.offset < next) × (next ≤ length buf) × Moved s next s'
unfolding scan_step
scan_step-Moved buf s s' h = elim (Bool-cases (ltb s.offset (length buf))) [
  | inl a ↦
      let (frame, n, d, m) = scan_next-Moved s s' (decode_frame (drop s.offset buf)) (rw a at h) in
      let (l, u) = decode_frame-Inside (drop s.offset buf) frame n d in
      (s.offset + n, omega arith, ground (arith, length-drop s.offset buf), m)
  | inr a ↦ let h' = rw a at h in ground arith
]

scan_step-end : (buf : List ℕ) (s : Scan) → length buf ≤ s.offset → scan_step buf s ≡ none
unfolding scan_step
scan_step-end buf s h = let e : ltb s.offset (length buf) ≡ false = ground arith in rw e refl

no_fuel : (buf : List ℕ) (s : Scan) → recover_loop 0 buf s ≡ s
unfolding recover_loop
no_fuel buf s = refl

ended : (fuel : ℕ) (buf : List ℕ) (s : Scan) → scan_step buf s ≡ none → recover_loop fuel buf s ≡ s
ended zero buf s e = no_fuel buf s
ended (suc fuel) buf s e = recover_loop_round fuel buf s none e

-- Fuel beyond the bytes that are left changes nothing.
recover_loop_spare :
    (fuel spare : ℕ) (buf : List ℕ) (s : Scan)
    → length buf ≤ s.offset + fuel
    → recover_loop (fuel + spare) buf s ≡ recover_loop fuel buf s
recover_loop_spare zero spare buf s h =
    ended (0 + spare) buf s (scan_step-end buf s (omega arith)) ∙ sym (no_fuel buf s)
recover_loop_spare (suc fuel) spare buf s h =
    ap (λ (k : ℕ). recover_loop k buf s)
      (let e : suc fuel + spare ≡ suc (fuel + spare) = omega arith in e)
    ∙ elim (Option-cases (scan_step buf s)) [
      | inl e ↦ ended (suc (fuel + spare)) buf s e ∙ sym (ended (suc fuel) buf s e)
      | inr (s', e) ↦
          let (next, l, u, (o, v)) = scan_step-Moved buf s s' e in
          recover_loop_round (fuel + spare) buf s (some s') e
          ∙ recover_loop_spare fuel spare buf s' (omega arith)
          ∙ sym (recover_loop_round fuel buf s (some s') e)
    ]

recover_loop-Inside :
    (fuel : ℕ) (buf : List ℕ) (s : Scan)
    → s.valid_prefix ≤ length buf
    → (recover_loop fuel buf s).valid_prefix ≤ length buf
recover_loop-Inside zero buf s h = rw (no_fuel buf s) h
recover_loop-Inside (suc fuel) buf s h = elim (Option-cases (scan_step buf s)) [
  | inl e ↦ rw (ended (suc fuel) buf s e) h
  | inr (s', e) ↦
      let (next, l, u, (o, v)) = scan_step-Moved buf s s' e in
      rw (recover_loop_round fuel buf s (some s') e)
        (recover_loop-Inside fuel buf s' (elim v [ inl w ↦ omega arith | inr w ↦ omega arith ]))
]

-- On any bytes whatever, the scan of `recover_committed_frames` ends within as many rounds as there are
-- bytes: any more fuel gives the same result. The valid prefix that it reports is no longer than the
-- bytes.
pub recover_committed_frames-total :
    (buf : List ℕ) (spare : ℕ)
    → recover_loop (length buf + spare) buf scan_start ≡ recover_loop (length buf) buf scan_start
      × ((recover_committed_frames buf).valid_prefix_len ≤ length buf)
unfolding recover_committed_frames
recover_committed_frames-total buf spare = (
  recover_loop_spare (length buf) spare buf scan_start (omega arith),
  recover_loop-Inside (length buf) buf scan_start (omega arith),
)
