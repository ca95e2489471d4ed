-- ===== src/Fs/Commit/Frames.antt =====
-- What the frames that a commit of crates/boa_idb_fs/src/txn.rs logs do in a replay: wal.rs, apply.rs.
use indexed_db_boa.Backend.{DatabaseMeta, BackendError}
use indexed_db_boa.Memory.{RecordKey, IndexKey}
use indexed_db_boa.Fs.Wal.{WalOp, WalFrame, CodecError, meta_replace, max_frame_payload}
use indexed_db_boa.Fs.Wal.Pack.{txn_frames, encode_frames, encode_txn_frames_limited}
use indexed_db_boa.Fs.Wal.Pack.Total.{Grouped, encode_txn_frames_limited-ok}
use indexed_db_boa.Fs.Wal.Recover.{recover_loop, recover_committed_frames}
use indexed_db_boa.Fs.Wal.Recover.Frame.{recover_loop-stop}
use indexed_db_boa.Fs.Wal.Recover.Transactions.{recover_loop-txn, encode_frames-nil}
use indexed_db_boa.Fs.Wal.Recover.Log.{
  IsTxn, good_groups, encode_frames-size, length-txn_frames, ready,
}
use indexed_db_boa.Fs.Meta.{encode_meta}
use indexed_db_boa.Fs.Meta.RoundTrip.{IsMeta}
use indexed_db_boa.Fs.State.{
  PersistMap, DbState, saturating_suc, apply_ops, raise_txn_seq, apply_frames,
}
use indexed_db_boa.Fs.Commit.{
  FsTxn, record_ops, index_ops, key_gen_ops, set_key_gens, commit_meta, is_dirty, commit_ops,
  apply_records, apply_entries, apply_generators, apply_pending_to_state,
}
use indexed_db_boa.Fs.Commit.Replay.{
  apply_ops-append, apply_record_ops, apply_index_ops, apply_key_gen_ops, apply_meta_replace,
  apply_frames-txn_frames,
}
use indexed_db_boa.Base.{
  ℕ, ◌+◌, ◌-◌, ◌^◌, ◌<◌, ◌≤◌, ◌≡◌, refl, sym, ap, ◌∙◌, subst, true, false, not, List, [], ◌∷◌, ◌++◌,
  append-nil, Option, some, Result, ok, ◌==◌, length, concat, length-append, arith, Bool-cases, inl,
  inr, if◌then◌else◌,
}

module _ (max : ℕ) (m : max ≤ max_frame_payload) (txn_seq : ℕ) where
  -- A log that holds the frames of one transaction gives these frames.
  recover_frames :
      (groups : List (List WalOp)) (out : List (List ℕ))
      → IsTxn (txn_seq, concat groups)
      → encode_frames (txn_frames txn_seq groups) max ≡ ok out
      → (recover_committed_frames (concat out)).frames ≡ txn_frames txn_seq groups
  unfolding recover_committed_frames
  recover_frames [] out h e =
      ap (λ o. (recover_committed_frames (concat o)).frames)
        (encode_frames-nil max out (unfold txn_frames in e))
      ∙ (unfold txn_frames recover_committed_frames recover_loop in refl)
  recover_frames (group ∷ groups) out h e =
      let gs = group ∷ groups in
      let buf = concat out in
      let fuel = length buf - length gs in
      let n : length buf ≡ length gs + fuel = omega (
        arith,
        encode_frames-size (txn_frames txn_seq gs) max out e,
        length-txn_frames txn_seq gs,
      ) in
      let (r, d) =
        recover_loop-txn max txn_seq m h.0 gs out buf [] (ready [] 0) fuel (good_groups gs h.1 h.2)
          (omega arith) e (inl (refl, refl)) (sym (append-nil buf)) in
      ap (λ (s : indexed_db_boa.Fs.Wal.Recover.Scan). s.committed)
        (ap (λ (k : ℕ). recover_loop k buf (ready [] 0)) n
          ∙ r
          ∙ recover_loop-stop fuel buf [] _ d (λ l. absurd (omega arith)))

module _ {R E : Type 0} (rm : PersistMap R RecordKey (List ℕ))
    (em : PersistMap E IndexKey (Unit {0})) where
  -- What the commit leaves, but for the sequence number.
  abbrev committed : FsTxn → DbState R E → DbState R E
  committed t s = record s {
    records = apply_records rm em t.pending_records s.records;
    index_entries = apply_entries rm em t.pending_index_entries s.index_entries;
    key_generators = apply_generators rm em t.pending_key_generators s.key_generators;
    db_meta = some (commit_meta t);
  }

  no_generators : {A : Type 0} (xs : List A) → length xs ≡ 0 → xs ≡ []
  no_generators [] e = refl
  no_generators (x ∷ xs) e = absurd (omega arith)

  clean :
      (t : FsTxn) → is_dirty t ≡ false → (t.schema_dirty ≡ false) × (t.pending_key_generators ≡ [])
  unfolding is_dirty
  clean t e = (ground arith, no_generators t.pending_key_generators (ground arith))

  commit_meta_clean : (t : FsTxn) → t.pending_key_generators ≡ [] → commit_meta t ≡ t.db_meta
  unfolding commit_meta set_key_gens
  commit_meta_clean t e = rw e refl

  apply_tail :
      (t : FsTxn) (s : DbState R E)
      → IsMeta (commit_meta t)
      → (t.schema_dirty ≡ false → s.db_meta ≡ some t.db_meta)
      → apply_ops rm em s (
          key_gen_ops t.pending_key_generators
          ++ (if is_dirty t then meta_replace (encode_meta (commit_meta t)) ∷ [] else []))
        ≡ ok (record s {
          key_generators = apply_generators rm em t.pending_key_generators s.key_generators;
          db_meta = some (commit_meta t);
        })
  apply_tail t s h c = elim (Bool-cases (is_dirty t)) [
    | inl e ↦
        let (db, k) = apply_key_gen_ops rm em s t.pending_key_generators in
        rw e (
          apply_ops-append rm em s _ (key_gen_ops t.pending_key_generators) _ k
          ∙ apply_meta_replace rm em _ (commit_meta t) h)
    | inr e ↦
        let (f, g) = clean t e in
        rw (e, commit_meta_clean t g, g)
          (unfold key_gen_ops apply_ops apply_generators in
            ap (λ (d : Option DatabaseMeta). ok (record s { db_meta = d })) (c f))
  ]

  apply_commit_ops :
      (t : FsTxn) (s : DbState R E)
      → IsMeta (commit_meta t)
      → (t.schema_dirty ≡ false → s.db_meta ≡ some t.db_meta)
      → apply_ops rm em s (commit_ops t) ≡ ok (committed t s)
  unfolding commit_ops
  apply_commit_ops t s h c =
      let s1 = record s { records = apply_records rm em t.pending_records s.records } in
      let s2 = record s1 {
        index_entries = apply_entries rm em t.pending_index_entries s1.index_entries;
      } in
      apply_ops-append rm em s s1 (record_ops t.pending_records) _
        (apply_record_ops rm em s t.pending_records)
      ∙ apply_ops-append rm em s1 s2 (index_ops t.pending_index_entries) _
          (apply_index_ops rm em s1 t.pending_index_entries)
      ∙ apply_tail t s2 h c

  no_frames :
      (n : ℕ) (s : DbState R E) → apply_frames rm em s (txn_frames n []) ≡ apply_ops rm em s []
  unfolding txn_frames apply_frames apply_ops
  no_frames n s = refl

  raised :
      (t : FsTxn) (s : DbState R E)
      → s.next_txn_seq < 2 ^ 64
      → ◌≡◌ {A = Result BackendError (DbState R E)}
          (ok (raise_txn_seq s.next_txn_seq (committed t s)))
          (ok (record (committed t s) { next_txn_seq = saturating_suc s.next_txn_seq }))
  unfolding raise_txn_seq saturating_suc
  raised t s l = ap (λ (k : ℕ). ok (record (committed t s) { next_txn_seq = k })) (omega arith)

  apply_frames-commit :
      (t : FsTxn) (s : DbState R E) (max : ℕ) (groups : List (List WalOp))
      → IsMeta (commit_meta t)
      → (t.schema_dirty ≡ false → s.db_meta ≡ some t.db_meta)
      → s.next_txn_seq < 2 ^ 64
      → Grouped max (commit_ops t) groups
      → apply_frames rm em s (txn_frames s.next_txn_seq groups)
        ≡ ok (
            apply_pending_to_state rm em t
              (commit_meta t)
              s.next_txn_seq
              (not (length (commit_ops t) == 0))
              s)
  unfolding apply_pending_to_state
  apply_frames-commit t s max [] h c l g =
      let b : not (length (commit_ops t) == 0) ≡ false = ground (arith, ap length g.0) in
      let o : apply_ops rm em s [] ≡ ok (committed t s) =
        rw (sym g.0) at (apply_commit_ops t s h c) in
      rw b (no_frames s.next_txn_seq s ∙ o)
  apply_frames-commit t s max (group ∷ groups) h c l g =
      let n : 0 < length (commit_ops t) =
        omega (arith, ap length g.0, length-append group (concat groups), g.1.0.0) in
      let b : not (length (commit_ops t) == 0) ≡ true = ground arith in
      let e : apply_ops rm em s (concat (group ∷ groups)) ≡ ok (committed t s) =
        subst (λ o. apply_ops rm em s o ≡ ok (committed t s)) (sym g.0)
          (apply_commit_ops t s h c) in
      rw b (
        apply_frames-txn_frames rm em s.next_txn_seq group groups s (committed t s) e
        ∙ raised t s l)

  pub frames-recover :
      (t : FsTxn) (s : DbState R E) (max : ℕ) (out : List (List ℕ))
      → max ≤ max_frame_payload
      → IsMeta (commit_meta t)
      → (t.schema_dirty ≡ false → s.db_meta ≡ some t.db_meta)
      → IsTxn (s.next_txn_seq, commit_ops t)
      → encode_txn_frames_limited s.next_txn_seq (commit_ops t) max ≡ ok out
      → apply_frames rm em s (recover_committed_frames (concat out)).frames
        ≡ ok (
            apply_pending_to_state rm em t
              (commit_meta t)
              s.next_txn_seq
              (not (length (commit_ops t) == 0))
              s)
  frames-recover t s max out m h c l e =
      let (groups, g, f) = encode_txn_frames_limited-ok s.next_txn_seq (commit_ops t) max out e in
      let k =
        recover_frames max m s.next_txn_seq groups out
          (subst (λ (o : List WalOp). IsTxn (s.next_txn_seq, o)) (sym g.0) l) f in
      ap (apply_frames rm em s) k ∙ apply_frames-commit t s max groups h c l.0 g
