-- ===== src/Fs/Commit/Replay.antt =====
-- The replay of crates/boa_idb_fs/src/apply.rs against the commit of crates/boa_idb_fs/src/txn.rs.
use indexed_db_boa.Backend.{DatabaseMeta}
use indexed_db_boa.Memory.{RecordKey, IndexKey}
use indexed_db_boa.Fs.Wal.{
  WalOp, put, delete, clear, index_put, index_delete, key_gen_set, meta_replace, WalFrame,
}
use indexed_db_boa.Fs.Wal.Pack.{txn_frames}
use indexed_db_boa.Fs.Meta.{encode_meta, decode_meta}
use indexed_db_boa.Fs.Meta.RoundTrip.{IsMeta, decode_meta-encode_meta}
use indexed_db_boa.Fs.State.{
  PersistMap, DbState, set_meta_key_gen, apply_op, apply_ops, raise_txn_seq, apply_frames,
}
use indexed_db_boa.Fs.Commit.{
  record_ops, index_ops, key_gen_ops, apply_records, apply_entries, apply_generators,
}
use indexed_db_boa.Base.{
  ℕ, ◌≡◌, refl, ap, ◌∙◌, Bool, true, false, List, [], ◌∷◌, ◌++◌, append-nil, Option, none, some,
  ok_inj, Result-cases, ok, concat, arith, inl, inr,
}
use indexed_db_boa.Base.Lex.{store_ord}
use indexed_db_boa.Base.Map.{Map, insert}

module _ {R E : Type 0} (rm : PersistMap R RecordKey (List ℕ))
    (em : PersistMap E IndexKey (Unit {0})) where
  pub apply_ops-append :
      (s s' : DbState R E) (xs ys : List WalOp)
      → apply_ops rm em s xs ≡ ok s'
      → apply_ops rm em s (xs ++ ys) ≡ apply_ops rm em s' ys
  unfolding apply_ops
  apply_ops-append s s' [] ys e = ap (λ s. apply_ops rm em s ys) (ok_inj e)
  apply_ops-append s s' (x ∷ xs) ys e = elim (Result-cases (apply_op rm em s x)) [
    | inl (t, f) ↦ rw f (apply_ops-append t s' xs ys (rw f at e))
    | inr (x, f) ↦ let e' = rw f at e in ground arith
  ]

  -- The sequence number plays no part in an operation.
  apply_op-raise :
      (n : ℕ) (s s' : DbState R E) (op : WalOp)
      → apply_op rm em s op ≡ ok s'
      → apply_op rm em (raise_txn_seq n s) op ≡ ok (raise_txn_seq n s')
  unfolding apply_op raise_txn_seq
  apply_op-raise n s s' (put store key value) e =
      ap (λ (t : DbState R E). ok (raise_txn_seq n t)) (ok_inj e)
  apply_op-raise n s s' (delete store key) e =
      ap (λ (t : DbState R E). ok (raise_txn_seq n t)) (ok_inj e)
  apply_op-raise n s s' (clear store) e =
      ap (λ (t : DbState R E). ok (raise_txn_seq n t)) (ok_inj e)
  apply_op-raise n s s' (index_put index idx_key primary_key) e =
      ap (λ (t : DbState R E). ok (raise_txn_seq n t)) (ok_inj e)
  apply_op-raise n s s' (index_delete index idx_key primary_key) e =
      ap (λ (t : DbState R E). ok (raise_txn_seq n t)) (ok_inj e)
  apply_op-raise n s s' (key_gen_set store value_bits) e =
      ap (λ (t : DbState R E). ok (raise_txn_seq n t)) (ok_inj e)
  apply_op-raise n s s' (meta_replace bytes) e = elim (Result-cases (decode_meta bytes)) [
    | inl (db, f) ↦ rw f (ap (λ (t : DbState R E). ok (raise_txn_seq n t)) (ok_inj (rw f at e)))
    | inr (x, f) ↦ let e' = rw f at e in ground arith
  ]

  pub apply_record_ops :
      (s : DbState R E) (m : Map RecordKey (Option (List ℕ)))
      → apply_ops rm em s (record_ops m)
        ≡ ok (record s { records = apply_records rm em m s.records })
  unfolding apply_ops apply_op record_ops apply_records
  apply_record_ops s [] = refl
  apply_record_ops s (((store, key), some val) ∷ m) =
      apply_record_ops (record s { records = rm.insert_mut (store, key) val s.records }) m
  apply_record_ops s (((store, key), none) ∷ m) =
      apply_record_ops (record s { records = rm.remove_mut (store, key) s.records }) m

  pub apply_index_ops :
      (s : DbState R E) (m : Map IndexKey Bool)
      → apply_ops rm em s (index_ops m)
        ≡ ok (record s { index_entries = apply_entries rm em m s.index_entries })
  unfolding apply_ops apply_op index_ops apply_entries
  apply_index_ops s [] = refl
  apply_index_ops s (((index, (ik, pk)), true) ∷ m) =
      apply_index_ops
        (record s { index_entries = em.insert_mut (index, (ik, pk)) tt s.index_entries }) m
  apply_index_ops s (((index, (ik, pk)), false) ∷ m) =
      apply_index_ops (record s { index_entries = em.remove_mut (index, (ik, pk)) s.index_entries })
        m

  apply_ops-raise :
      (n : ℕ) (s s' : DbState R E) (ops : List WalOp)
      → apply_ops rm em s ops ≡ ok s'
      → apply_ops rm em (raise_txn_seq n s) ops ≡ ok (raise_txn_seq n s')
  unfolding apply_ops
  apply_ops-raise n s s' [] e = ap (λ (t : DbState R E). ok (raise_txn_seq n t)) (ok_inj e)
  apply_ops-raise n s s' (op ∷ ops) e = elim (Result-cases (apply_op rm em s op)) [
    | inl (t, f) ↦ rw (apply_op-raise n s t op f) (apply_ops-raise n t s' ops (rw f at e))
    | inr (x, f) ↦ let e' = rw f at e in ground arith
  ]

  apply_ops-front :
      (s s' : DbState R E) (xs ys : List WalOp)
      → apply_ops rm em s (xs ++ ys) ≡ ok s'
      → (t : DbState R E) × (apply_ops rm em s xs ≡ ok t) × (apply_ops rm em t ys ≡ ok s')
  unfolding apply_ops
  apply_ops-front s s' [] ys e = (s, refl, e)
  apply_ops-front s s' (x ∷ xs) ys e = elim (Result-cases (apply_op rm em s x)) [
    | inl (t, f) ↦ let (u, a, b) = apply_ops-front t s' xs ys (rw f at e) in (u, rw f a, b)
    | inr (x, f) ↦ let e' = rw f at e in ground arith
  ]

  raise_twice : (n : ℕ) (s : DbState R E) → raise_txn_seq n (raise_txn_seq n s) ≡ raise_txn_seq n s
  unfolding raise_txn_seq
  raise_twice n s = ap (λ (k : ℕ). record s { next_txn_seq = k }) (omega arith)

  apply_frames-cons :
      (n : ℕ) (s t : DbState R E) (frame : WalFrame) (frames : List WalFrame)
      → frame.txn_seq ≡ n
      → apply_ops rm em s frame.ops ≡ ok t
      → apply_frames rm em s (frame ∷ frames) ≡ apply_frames rm em (raise_txn_seq n t) frames
  unfolding apply_frames
  apply_frames-cons n s t frame frames q e = rw (e, q) refl

  -- The frames of a transaction replay its operations.
  pub apply_frames-txn_frames :
      (n : ℕ) (group : List WalOp) (groups : List (List WalOp)) (s s' : DbState R E)
      → apply_ops rm em s (group ++ concat groups) ≡ ok s'
      → apply_frames rm em s (txn_frames n (group ∷ groups)) ≡ ok (raise_txn_seq n s')
  unfolding txn_frames
  apply_frames-txn_frames n group [] s s' e =
      apply_frames-cons n s s' _ [] refl (rw append-nil at e) ∙ (unfold apply_frames in refl)
  apply_frames-txn_frames n group (group' ∷ groups) s s' e =
      let (t, a, b) = apply_ops-front s s' group (group' ++ concat groups) e in
      apply_frames-cons n s t _ (txn_frames n (group' ∷ groups)) refl a
      ∙ apply_frames-txn_frames n group' groups (raise_txn_seq n t) (raise_txn_seq n s')
          (apply_ops-raise n t s' (group' ++ concat groups) b)
      ∙ ap ok (raise_twice n s')

  -- The generators of a transaction, and metadata that its own will replace.
  pub apply_key_gen_ops :
      (s : DbState R E) (m : Map ℕ ℕ)
      → (db : Option DatabaseMeta) × (apply_ops rm em s (key_gen_ops m)
          ≡ ok (record s {
            key_generators = apply_generators rm em m s.key_generators;
            db_meta = db;
          }))
  unfolding apply_ops apply_op key_gen_ops apply_generators
  apply_key_gen_ops s [] = (s.db_meta, refl)
  apply_key_gen_ops s ((store, value) ∷ m) =
      apply_key_gen_ops
        (record s {
          key_generators = insert store value s.key_generators;
          db_meta = set_meta_key_gen store value s.db_meta;
        })
        m

  pub apply_meta_replace :
      (s : DbState R E) (db : DatabaseMeta)
      → IsMeta db
      → apply_ops rm em s (meta_replace (encode_meta db) ∷ []) ≡ ok (record s { db_meta = some db })
  unfolding apply_ops apply_op
  apply_meta_replace s db h = rw (decode_meta-encode_meta db h) refl
