-- ===== src/Fs/Commit/Durable.antt =====
-- Commit, crash and open: crates/boa_idb_fs/src/txn.rs, wal.rs and apply.rs together.
use indexed_db_boa.Backend.{BackendError, quota_exceeded}
use indexed_db_boa.Memory.{RecordKey, IndexKey}
use indexed_db_boa.Fs.Wal.{CodecError, WalOp, max_frame_payload}
use indexed_db_boa.Fs.Wal.Pack.{
  op_encoded_len, pack_ops, finish_groups, group_ops, txn_frames, encode_frames,
  encode_txn_frames_limited,
}
use indexed_db_boa.Fs.Wal.Pack.Total.{OpFits, encode_txn_frames_limited-error}
use indexed_db_boa.Fs.Wal.Recover.{recover_loop, recover_committed_frames}
use indexed_db_boa.Fs.Wal.Recover.Log.{IsTxn}
use indexed_db_boa.Fs.Meta.RoundTrip.{IsMeta}
use indexed_db_boa.Fs.State.{PersistMap, DbState, apply_frames}
use indexed_db_boa.Fs.Commit.{
  FsTxn, commit_meta, commit_ops, apply_pending_to_state, commit_frames, commit_before_compact,
  build_commit_payload, count_appended, encode_error,
}
use indexed_db_boa.Base.{
  ℕ, ◌≤◌, ◌≡◌, refl, sym, ap, ◌∙◌, Bool, true, false, not, List, [], ◌∷◌, some, Result, ok, err,
  All, ◌<◌, ◌+◌, ◌++◌, ◌==◌, length, concat, arith, Bool-cases, inl, inr, if◌then◌else◌,
  Result-cases, ok_inj, ◌⊎◌,
}
use indexed_db_boa.Engine.{is_read_only}
use indexed_db_boa.Fs.Commit.Frames.{frames-recover}

-- The state `u` but for the counters of the log, which are those of `s`.
abbrev pub with_counters : {R E : Type 0} → DbState R E → DbState R E → DbState R E
with_counters s u = record u {
  wal_bytes_since_compact = s.wal_bytes_since_compact;
  wal_frames_since_compact = s.wal_frames_since_compact;
}

module _ {R E : Type 0} (rm : PersistMap R RecordKey (List ℕ))
    (em : PersistMap E IndexKey (Unit {0})) where
  no_ops : (txn_seq max : ℕ) → encode_txn_frames_limited txn_seq [] max ≡ ok []
  unfolding encode_txn_frames_limited group_ops pack_ops finish_groups txn_frames encode_frames
  no_ops txn_seq max = refl

  commit_frames-encode :
      (txn_seq : ℕ) (ops : List WalOp) (max : ℕ) (out : List (List ℕ))
      → commit_frames txn_seq ops max ≡ ok out
      → encode_txn_frames_limited txn_seq ops max ≡ ok out
  unfolding commit_frames
  commit_frames-encode txn_seq [] max out h = no_ops txn_seq max ∙ ap ok (ok_inj h)
  commit_frames-encode txn_seq (op ∷ ops) max out h =
      let z : (length (op ∷ ops) == 0) ≡ false = ground arith in
      elim (Result-cases (encode_txn_frames_limited txn_seq (op ∷ ops) max)) [
        | inl (frames, e) ↦
            let h' : ◌≡◌ {A = Result BackendError (List (List ℕ))} (ok frames) (ok out) =
              rw (z, e) at h in
            e ∙ ap ok (ok_inj h')
        | inr (x, e) ↦ absurd (let h' = rw (z, e) at h in cc)
      ]

  commit_frames-refused :
      (txn_seq : ℕ) (ops : List WalOp) (max : ℕ) (e : BackendError)
      → commit_frames txn_seq ops max ≡ err e
      → (x : CodecError) × (encode_txn_frames_limited txn_seq ops max ≡ err x)
        × (encode_error max x ≡ e)
  unfolding commit_frames
  commit_frames-refused txn_seq [] max e h = absurd cc
  commit_frames-refused txn_seq (op ∷ ops) max e h =
      let z : (length (op ∷ ops) == 0) ≡ false = ground arith in
      elim (Result-cases (encode_txn_frames_limited txn_seq (op ∷ ops) max)) [
        | inl (frames, f) ↦ absurd (let h' = rw (z, f) at h in cc)
        | inr (x, f) ↦
            let h' : ◌≡◌ {A = Result BackendError (List (List ℕ))} (err (encode_error max x))
                (err e) =
              rw (z, f) at h in
            (x, f, cc)
      ]

  nothing-recover :
      (s : DbState R E) → apply_frames rm em s (recover_committed_frames (concat [])).frames ≡ ok s
  unfolding recover_committed_frames recover_loop apply_frames
  nothing-recover s = refl

  uncounted :
      (s v : DbState R E) (appended : ℕ) (empty : Bool)
      → v.wal_bytes_since_compact ≡ s.wal_bytes_since_compact
      → v.wal_frames_since_compact ≡ s.wal_frames_since_compact
      → v ≡ with_counters s (if empty then v else count_appended appended v)
  unfolding count_appended
  uncounted s v appended true e f =
      λ i. record v { wal_bytes_since_compact = e i; wal_frames_since_compact = f i }
  uncounted s v appended false e f =
      λ i. record v { wal_bytes_since_compact = e i; wal_frames_since_compact = f i }

  -- A commit leaves the state before it, or what `apply_pending_to_state` makes of it, but for the counters.
  commit_before_compact-cases :
      (t : FsTxn) (s u : DbState R E) (max : ℕ) (out : List (List ℕ))
      → commit_before_compact rm em t max s ≡ ok (out, u)
      → ((out ≡ []) × (u ≡ s))
        ⊎ ((commit_frames s.next_txn_seq (commit_ops t) max ≡ ok out)
            × (apply_pending_to_state rm em t
                  (commit_meta t)
                  s.next_txn_seq
                  (not (length (commit_ops t) == 0))
                  s
                ≡ with_counters s u))
  unfolding commit_before_compact build_commit_payload apply_pending_to_state
  commit_before_compact-cases t s u max out h = elim (Bool-cases (is_read_only t.mode)) [
    | inl e ↦
        let h' : ok ([], s) ≡ ok (out, u) = rw e at h in
        let k = ok_inj h' in inl (sym (ap (λ r. r.0) k), sym (ap (λ r. r.1) k))
    | inr e ↦ elim (Result-cases (commit_frames s.next_txn_seq (commit_ops t) max)) [
      | inr (x, f) ↦ absurd (let h' = rw (e, f) at h in cc)
      | inl (frames, f) ↦
          let applied =
            apply_pending_to_state rm em t (commit_meta t) s.next_txn_seq
              (not (length (commit_ops t) == 0)) s in
          let counted =
            if length (commit_ops t) == 0
            then applied
            else count_appended (length (concat frames)) applied in
          let h' : ok (frames, counted) ≡ ok (out, u) = rw (e, f) at h in
          let k = ok_inj h' in
          inr (
            f ∙ ap (λ r. ok r.0) k,
            uncounted s applied (length (concat frames)) (length (commit_ops t) == 0) refl refl
                ∙ ap (λ r. with_counters s r.1) k,
          )
    ]
  ]

  -- A commit that fails was refused by the encoder.
  commit_before_compact-refused :
      (t : FsTxn) (s : DbState R E) (max : ℕ) (e : BackendError)
      → commit_before_compact rm em t max s ≡ err e
      → (x : CodecError) × (encode_txn_frames_limited s.next_txn_seq (commit_ops t) max ≡ err x)
        × (encode_error max x ≡ e)
  unfolding commit_before_compact build_commit_payload
  commit_before_compact-refused t s max e h = elim (Bool-cases (is_read_only t.mode)) [
    | inl f ↦ absurd (let h' = rw f at h in cc)
    | inr f ↦ elim (Result-cases (commit_frames s.next_txn_seq (commit_ops t) max)) [
      | inl (frames, g) ↦ absurd (let h' = rw (f, g) at h in cc)
      | inr (x, g) ↦
          let h' : ◌≡◌ {A = Result BackendError (List (List ℕ) × DbState R E)} (err x) (err e) =
            rw (f, g) at h in
          commit_frames-refused s.next_txn_seq (commit_ops t) max e
            (let k : x ≡ e = cc in rw (← k) g)
    ]
  ]

  -- What a commit, scanned and replayed on the state from before it, gives: the state that it leaves
  -- but for the counters of the log.
  abbrev pub Recovers : FsTxn → ℕ → DbState R E → Type 0
  Recovers t max s =
      (out : List (List ℕ)) × (u : DbState R E) × (commit_before_compact rm em t max s
        ≡ ok (out, u))
      × (apply_frames rm em s (recover_committed_frames (concat out)).frames
          ≡ ok (with_counters s u))

  -- A commit refused for its first operation that fits in no frame.
  abbrev pub Refuses : FsTxn → ℕ → DbState R E → Type 0
  Refuses t max s =
      (before : List WalOp) × (op : WalOp) × (after : List WalOp) × (commit_ops t
        ≡ before ++ op ∷ after)
      × All (OpFits max) before
      × (max < op_encoded_len op + 1)
      × (commit_before_compact rm em t max s ≡ err (quota_exceeded (op_encoded_len op + 1) max))

  -- Durability, when the log is empty and the operations on files succeed. A commit either succeeds,
  -- and then the scan of the frames that it appends to the log and their replay, on the state from
  -- before it, give the state that it leaves before it calls `maybe_compact`, but for the two
  -- counters of the log since the last compaction; or its first operation that fits in no frame
  -- makes it fail, with that operation's length and the limit in a quota error. The transaction
  -- holds the state's metadata unless it changed the schema; the sequence number, the operations and
  -- the committed metadata fit in the words that hold them; the frame limit is 64 MiB or less.
  pub commit-recover :
      (t : FsTxn) (s : DbState R E) (max : ℕ)
      → max ≤ max_frame_payload
      → IsMeta (commit_meta t)
      → (t.schema_dirty ≡ false → s.db_meta ≡ some t.db_meta)
      → IsTxn (s.next_txn_seq, commit_ops t)
      → Recovers t max s ⊎ Refuses t max s
  unfolding encode_error
  commit-recover t s max m h c l = elim (Result-cases (commit_before_compact rm em t max s)) [
    | inl ((out, u), e) ↦ inl (
      out,
      u,
      e,
      (elim (commit_before_compact-cases t s u max out e) [
        | inl (f, g) ↦ rw (f, g) (nothing-recover s)
        | inr (f, g) ↦
            frames-recover rm em t s max out m h c l
              (commit_frames-encode s.next_txn_seq (commit_ops t) max out f)
            ∙ ap ok g
      ]),
    )
    | inr (e, f) ↦
        let (x, g, k) = commit_before_compact-refused t s max e f in
        let (before, op, after, c', fs, l', y) =
          encode_txn_frames_limited-error s.next_txn_seq (commit_ops t) max x g in
        inr (before, op, after, c', fs, l', f ∙ ap err (sym k ∙ ap (encode_error max) y))
  ]
