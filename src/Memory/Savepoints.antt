-- ===== src/Memory/Savepoints.antt =====
-- The savepoints of crates/boa_idb_memory/src/txn.rs: what an operation logs takes its changes back.

use indexed_db_boa.Base.{
  ℕ, ◌≡◌, refl, sym, ap, ◌∙◌, Bool, List, [], ◌∷◌, ◌++◌, Option, none, some, if◌then◌else◌, arith,
  append_assoc, append-nil, Option-cases, inl, inr, Bool-cases,
}
use indexed_db_boa.Base.Lex.{bytes_ord, store_ord}
use indexed_db_boa.Base.Map.{
  get, same, same_iff, insert, get-insert, get-remove, get-insert_back, get-remove_back,
  get-removed_back,
}
use indexed_db_boa.Memory.{
  RecordKey, IndexKey, record_ord, index_ord, StorageState, absent, deleted, value, UndoOp,
  restore_record, restore_index, restore_key_gen, Pending, MemoryTxn, pending_slot, key_gen_current,
  check_readwrite,
}
use indexed_db_boa.Engine.{is_read_only}
use indexed_db_boa.Memory.Writes.{
  Writes, writes_meta, writes_record, forgets_record, writes_index, writes_key_gen, follows,
}
use indexed_db_boa.Memory.Txn.{
  log_all, undo, undo_all, write_record, write_index, forget_record, key_gen_set,
}

-- Two pending views that no read tells apart.
abbrev pub SamePending : StorageState → Pending → Pending → Type 0
SamePending state p q =
    ((key : RecordKey) → get key p.records ≡ get key q.records)
    × ((key : IndexKey) → get key p.index_entries ≡ get key q.index_entries)
    × ((store : ℕ) → key_gen_current state p store ≡ key_gen_current state q store)

-- The operations between `t` and `u` logged what takes the pending view of `u` back to that of `t`.
abbrev pub Logs : StorageState → MemoryTxn → MemoryTxn → Type 0
Logs state t u =
    (ops : List UndoOp) × (u.undo_stack ≡ log_all ops t.undo_stack)
    × SamePending state (undo_all ops u.pending) t.pending

key_gen-insert :
    (state : StorageState) (store val : ℕ) (p : Pending) (s : ℕ)
    → key_gen_current state (record p { key_generators = insert store val p.key_generators }) s
      ≡ (if same store s then val else key_gen_current state p s)
unfolding key_gen_current
key_gen-insert state store val p s = ground (arith, get-insert s store val p.key_generators)

module _ (state : StorageState) where
  pub SamePending-trans :
      (p q r : Pending) → SamePending state p q → SamePending state q r → SamePending state p r
  SamePending-trans p q r a b =
      (λ key. a.0 key ∙ b.0 key, λ key. a.1 key ∙ b.1 key, λ store. a.2 store ∙ b.2 store)

  undo-Same :
      (op : UndoOp) (p q : Pending)
      → SamePending state p q
      → SamePending state (undo op p) (undo op q)
  unfolding undo key_gen_current
  undo-Same (restore_record key (value val)) p q a = (
    λ k.
        get-insert k key (some val) p.records
        ∙ rw (a.0 k) (sym (get-insert k key (some val) q.records)),
    a.1,
    a.2,
  )
  undo-Same (restore_record key deleted) p q a = (
    λ k. get-insert k key none p.records ∙ rw (a.0 k) (sym (get-insert k key none q.records)),
    a.1,
    a.2,
  )
  undo-Same (restore_record key absent) p q a =
      (λ k. get-remove k key p.records ∙ rw (a.0 k) (sym (get-remove k key q.records)), a.1, a.2)
  undo-Same (restore_index key (some existed)) p q a = (
    a.0,
    λ k.
        get-insert k key existed p.index_entries
        ∙ rw (a.1 k) (sym (get-insert k key existed q.index_entries)),
    a.2,
  )
  undo-Same (restore_index key none) p q a = (
    a.0,
    λ k. get-remove k key p.index_entries ∙ rw (a.1 k) (sym (get-remove k key q.index_entries)),
    a.2,
  )
  undo-Same (restore_key_gen store old) p q a = (
    a.0,
    a.1,
    λ s. key_gen-insert state store old p s ∙ rw (a.2 s) (sym (key_gen-insert state store old q s)),
  )

  pub undo_all-Same :
      (ops : List UndoOp) (p q : Pending)
      → SamePending state p q
      → SamePending state (undo_all ops p) (undo_all ops q)
  unfolding undo_all
  undo_all-Same [] p q a = a
  undo_all-Same (op ∷ ops) p q a = undo-Same op _ _ (undo_all-Same ops p q a)

  pub undo_all-append :
      (a b : List UndoOp) (p : Pending) → undo_all (a ++ b) p ≡ undo_all a (undo_all b p)
  unfolding undo_all
  undo_all-append [] b p = refl
  undo_all-append (op ∷ a) b p = ap (undo op) (undo_all-append a b p)

  log_all-append :
      (a b : List UndoOp) (levels : List (List UndoOp))
      → log_all b (log_all a levels) ≡ log_all (a ++ b) levels
  unfolding log_all
  log_all-append a b [] = refl
  log_all-append a b (level ∷ levels) = ap (λ l. l ∷ levels) (append_assoc level a b)

  slot-undo :
      (key : RecordKey) (val : Option (List ℕ)) (p : Pending)
      → SamePending state
          (undo
            (restore_record key (pending_slot p key))
            (record p { records = insert key val p.records }))
          p
  unfolding undo pending_slot key_gen_current
  slot-undo key val p = elim (Option-cases (get key p.records)) [
    | inl h ↦ rw h (λ k. get-remove_back k key val p.records h, λ k. refl, λ s. refl)
    | inr (none, h) ↦ rw h (λ k. get-insert_back k key val none p.records h, λ k. refl, λ s. refl)
    | inr (some old, h) ↦
        rw h (λ k. get-insert_back k key val (some old) p.records h, λ k. refl, λ s. refl)
  ]

  entry-undo :
      (key : IndexKey) (existed : Bool) (p : Pending)
      → SamePending state
          (undo
            (restore_index key (get key p.index_entries))
            (record p { index_entries = insert key existed p.index_entries }))
          p
  unfolding undo key_gen_current
  entry-undo key existed p = elim (Option-cases (get key p.index_entries)) [
    | inl h ↦ rw h (λ k. refl, λ k. get-remove_back k key existed p.index_entries h, λ s. refl)
    | inr (old, h) ↦
        rw h (λ k. refl, λ k. get-insert_back k key existed old p.index_entries h, λ s. refl)
  ]

  gen-undo :
      (p : Pending) (store val s : ℕ)
      → key_gen_current state
          (undo
            (restore_key_gen store (key_gen_current state p store))
            (record p { key_generators = insert store val p.key_generators }))
          s
        ≡ key_gen_current state p s
  unfolding undo
  gen-undo p store val s = ground (
    arith,
    same_iff store s,
    key_gen-insert state store (key_gen_current state p store)
        (record p { key_generators = insert store val p.key_generators }) s,
    key_gen-insert state store val p s,
  )

  log_all-nil : (levels : List (List UndoOp)) → levels ≡ log_all [] levels
  unfolding log_all
  log_all-nil [] = refl
  log_all-nil (level ∷ levels) = ap (λ l. l ∷ levels) (sym (append-nil level))

  Logs-nil : (t : MemoryTxn) → Logs state t t
  unfolding undo_all
  Logs-nil t = ([], log_all-nil t.undo_stack, (λ k. refl, λ k. refl, λ k. refl))

  Logs-trans : (t u v : MemoryTxn) → Logs state t u → Logs state u v → Logs state t v
  Logs-trans t u v (a, e, h) (b, f, g) = (
    a ++ b,
    f ∙ ap (log_all b) e ∙ log_all-append a b t.undo_stack,
    rw (undo_all-append a b v.pending)
        (SamePending-trans _ (undo_all a u.pending) t.pending (undo_all-Same a _ _ g) h),
  )

  write_record-Logs :
      (key : RecordKey) (val : Option (List ℕ)) (t : MemoryTxn)
      → Logs state t (write_record key val t)
  unfolding write_record undo_all undo pending_slot
  write_record-Logs key val t =
      (restore_record key (pending_slot t.pending key) ∷ [], refl, slot-undo key val t.pending)

  forget_record-Logs :
      (key : RecordKey) (val : List ℕ) (t : MemoryTxn)
      → get key t.pending.records ≡ some (some val)
      → Logs state t (forget_record key val t)
  unfolding forget_record undo_all undo key_gen_current
  forget_record-Logs key val t h = (
    restore_record key (value val) ∷ [],
    refl,
    (λ k. get-removed_back k key (some val) t.pending.records h, λ k. refl, λ s. refl),
  )

  write_index-Logs :
      (key : IndexKey) (existed : Bool) (t : MemoryTxn) → Logs state t (write_index key existed t)
  unfolding write_index undo_all
  write_index-Logs key existed t = (
    restore_index key (get key t.pending.index_entries) ∷ [],
    refl,
    entry-undo key existed t.pending,
  )

  key_gen_set-Logs :
      (t : MemoryTxn) (store val : ℕ) → Logs state t (key_gen_set state t store val).0
  unfolding key_gen_set undo_all undo check_readwrite
  key_gen_set-Logs t store val = elim (Bool-cases (is_read_only t.mode)) [
    | inl h ↦ rw h (Logs-nil t)
    | inr h ↦ rw h (
      restore_key_gen store (key_gen_current state t.pending store) ∷ [],
      refl,
      (λ k. refl, λ k. refl, λ s. gen-undo t.pending store val s),
    )
  ]

  pub Writes-Logs : {t u : MemoryTxn} → Writes state t u → Logs state t u
  unfolding undo_all
  Writes-Logs (writes_meta {t} {u} e f) = (
    [],
    f ∙ log_all-nil t.undo_stack,
    (
      λ k. ap (λ p. get k p.records) e,
      λ k. ap (λ p. get k p.index_entries) e,
      λ s. ap (λ p. key_gen_current state p s) e,
    ),
  )
  Writes-Logs (writes_record {t} key val) = write_record-Logs key val t
  Writes-Logs (forgets_record {t} key val h) = forget_record-Logs key val t h
  Writes-Logs (writes_index {t} key existed) = write_index-Logs key existed t
  Writes-Logs (writes_key_gen {t} store val) = key_gen_set-Logs t store val
  Writes-Logs (follows {t} {u} {v} a b) = Logs-trans t u v (Writes-Logs a) (Writes-Logs b)
