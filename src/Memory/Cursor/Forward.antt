-- ===== src/Memory/Cursor/Forward.antt =====
-- What a forward store cursor of crates/boa_idb_memory/src/cursor.rs picks, on the records left.
use indexed_db_boa.Base.{
  ℕ, ◌≡◌, ◌⊎◌, refl, sym, ap, ap₂, ◌∙◌, subst, Bool, true, false, List, [], ◌∷◌, Option, none, some,
  if◌then◌else◌, inl, inr, All,
}
use indexed_db_boa.Base.Order.{cmp_slice, swap, cmp_slice-swap}
use indexed_db_boa.Base.Lex.{bytes_ord, store_ord}
use indexed_db_boa.Base.Map.{get}
use indexed_db_boa.Base.Sorted.{Above, Sorted, Ordering-cases, Above-trans, Above-absent}
use indexed_db_boa.Key.Range.{EncodedRange}
use indexed_db_boa.Memory.{record_ord, StorageState, Pending, read_record}
use indexed_db_boa.Memory.Cursor.Kinds.{on_store, MemoryCursor}
use indexed_db_boa.Memory.Cursor.Store.{
  start_record_lower, start_record_upper, record_start, RecordPick, no_record, again_record,
  record_pick, pick_committed, pick_pending, pick_both, pick_record, is_tombstone, shadowed,
  row_value,
}
use indexed_db_boa.Memory.Cursor.Suffix.{first_entry, Remains, Remains-next}
use indexed_db_boa.Memory.Cursor.Consumed.{
  Rows, Slots, Consumed, least_row, least_slot, least_both, same_refl, reads_after,
}

module _ (state : StorageState) (p : Pending) (id : ℕ) (range : EncodedRange)
    (key_only : Bool) where
  -- A forward cursor on the store, open, with these committed and pending records left.
  pub record Left (c : MemoryCursor) (rows : Rows) (slots : Slots) : Type 0 where
    pub is_forward : c.desc ≡ false
    pub has_range : c.range ≡ range
    pub has_key_only : c.key_only ≡ key_only
    pub is_open : c.exhausted ≡ false
    pub has_kind : c.kind ≡ on_store id
    pub committed : Remains id state.records (record_start id c.committed_record_pos c) rows
    pub pending : Remains id p.records (record_start id c.pending_record_pos c) slots
    pub reads_left :
        All
          (λ (e : List ℕ × List ℕ).
            (get (id, e.0) p.records ≡ get e.0 slots) × (get (id, e.0) state.records ≡ some e.1))
          rows

  -- What a pick says of the slot it consumed.
  abbrev pub Picks : MemoryCursor → List ℕ → Option (List ℕ) → RecordPick → Type 0
  Picks d k slot pick =
      ((slot ≡ none) × (pick ≡ again_record))
      ⊎ (((val : Option (List ℕ)) × (pick ≡ record_pick (id, k) val true) × (slot ≡ none))
          ⊎ ((v : List ℕ) × (val : Option (List ℕ)) × (pick ≡ record_pick (id, k) val false)
              × (slot ≡ some v)
              × (row_value state p d (id, k) val ≡ (if key_only then none else some v))))

  abbrev pub PickResult : Rows → Slots → MemoryCursor × RecordPick → Type 0
  PickResult rows slots (d, pick) =
      (k : List ℕ) × (slot : Option (List ℕ)) × (rows' : Rows) × (slots' : Slots) × Left d rows'
        slots'
      × Consumed k slot rows slots rows' slots'
      × Picks d k slot pick

  picked_slot :
      (d : MemoryCursor) (k : List ℕ) (slot : Option (List ℕ))
      → d.key_only ≡ key_only
      → Picks d k slot (record_pick (id, k) slot (is_tombstone slot))
  picked_slot d k none h = inr (inl (none, refl, refl))
  picked_slot d k (some v) h =
      inr (inr (v, some v, refl, refl, ap (λ b. if b then none else some v) h))

  picked_both :
      (d : MemoryCursor) (k : List ℕ) (slot : Option (List ℕ))
      → d.key_only ≡ key_only
      → Picks d k slot (if is_tombstone slot then again_record else record_pick (id, k) slot false)
  picked_both d k none h = inl (refl, refl)
  picked_both d k (some v) h =
      inr (inr (v, some v, refl, refl, ap (λ b. if b then none else some v) h))

  read_committed :
      (k v : List ℕ)
      → get (id, k) p.records ≡ none
      → get (id, k) state.records ≡ some v
      → read_record state p (id, k) ≡ some v
  unfolding read_record
  read_committed k v e f = rw (read_record, e) f

  read_row :
      (d : MemoryCursor) (k v : List ℕ)
      → d.key_only ≡ key_only
      → get (id, k) p.records ≡ none
      → get (id, k) state.records ≡ some v
      → row_value state p d (id, k) none ≡ (if key_only then none else some v)
  read_row d k v h e f = ap₂ (λ b r. if b then none else r) h (read_committed k v e f)

  module _ (s1 : Sorted state.records) (s2 : Sorted p.records) where
    took_committed :
        (c : MemoryCursor) (k v : List ℕ) (rows : Rows) (slots : Slots)
        → Left c ((k, v) ∷ rows) slots
        → Above k slots
        → PickResult ((k, v) ∷ rows) slots (pick_committed p c (id, k))
    unfolding pick_committed record_start start_record_lower start_record_upper
    took_committed c k v rows slots l a =
        let absent = l.reads_left.0.0 ∙ Above-absent k k slots a (same_refl k) in
        (
          k,
          some v,
          rows,
          slots,
          record {
            is_forward = l.is_forward;
            has_range = l.has_range;
            has_key_only = l.has_key_only;
            is_open = l.is_open;
            has_kind = l.has_kind;
            committed = rw l.is_forward (Remains-next id state.records _ k v rows s1 l.committed);
            pending = l.pending;
            reads_left = l.reads_left.1;
          },
          least_row k v rows slots l.committed.3.0 a,
          inr (
              inr (
                v,
                none,
                ap (λ o. record_pick (id, k) none (shadowed o)) absent,
                refl,
                read_row (pick_committed p c (id, k)).0 k v l.has_key_only absent l.reads_left.0.1,
              )),
        )

    took_pending :
        (c : MemoryCursor) (k : List ℕ) (slot : Option (List ℕ)) (rows : Rows) (slots : Slots)
        → Left c rows ((k, slot) ∷ slots)
        → Above k rows
        → PickResult rows ((k, slot) ∷ slots) (pick_pending c (id, k) slot)
    unfolding pick_pending record_start start_record_lower start_record_upper
    took_pending c k slot rows slots l a = (
      k,
      slot,
      rows,
      slots,
      record {
        is_forward = l.is_forward;
        has_range = l.has_range;
        has_key_only = l.has_key_only;
        is_open = l.is_open;
        has_kind = l.has_kind;
        committed = l.committed;
        pending = rw l.is_forward (Remains-next id p.records _ k slot slots s2 l.pending);
        reads_left = reads_after state p id k slot slots rows a l.reads_left;
      },
      least_slot k slot rows slots a l.pending.3.0,
      picked_slot (pick_pending c (id, k) slot).0 k slot l.has_key_only,
    )

    took_both :
        (c : MemoryCursor) (k v : List ℕ) (slot : Option (List ℕ)) (rows : Rows) (slots : Slots)
        → Left c ((k, v) ∷ rows) ((k, slot) ∷ slots)
        → PickResult ((k, v) ∷ rows) ((k, slot) ∷ slots) (pick_both c (id, k) (id, k) slot)
    unfolding pick_both record_start start_record_lower start_record_upper
    took_both c k v slot rows slots l = (
      k,
      slot,
      rows,
      slots,
      record {
        is_forward = l.is_forward;
        has_range = l.has_range;
        has_key_only = l.has_key_only;
        is_open = l.is_open;
        has_kind = l.has_kind;
        committed = rw l.is_forward (Remains-next id state.records _ k v rows s1 l.committed);
        pending = rw l.is_forward (Remains-next id p.records _ k slot slots s2 l.pending);
        reads_left = reads_after state p id k slot slots rows l.committed.3.0 l.reads_left.1;
      },
      least_both k v slot rows slots l.committed.3.0 l.pending.3.0,
      picked_both (pick_both c (id, k) (id, k) slot).0 k slot l.has_key_only,
    )

    tie :
        (c : MemoryCursor) (k v j : List ℕ) (slot : Option (List ℕ)) (rows : Rows) (slots : Slots)
        → j ≡ k
        → Left c ((k, v) ∷ rows) ((j, slot) ∷ slots)
        → PickResult ((k, v) ∷ rows) ((j, slot) ∷ slots) (pick_both c (id, k) (id, j) slot)
    tie c k v j slot rows slots e =
        subst
          (λ x.
            Left c ((k, v) ∷ rows) ((x, slot) ∷ slots)
            → PickResult ((k, v) ∷ rows) ((x, slot) ∷ slots) (pick_both c (id, k) (id, x) slot))
          (sym e) (took_both c k v slot rows slots)

    -- Unless nothing is left, a pick consumes the least key.
    pub picked :
        (c : MemoryCursor) (rows : Rows) (slots : Slots)
        → Left c rows slots
        → let r = pick_record p c (first_entry id rows) (first_entry id slots) in
          PickResult rows slots r ⊎ ((rows ≡ []) × (slots ≡ []) × (r ≡ (c, no_record)))
    unfolding pick_record
    picked c [] [] l = inr (refl, refl, refl)
    picked c ((k, v) ∷ rows) [] l = inl (took_committed c k v rows [] l tt)
    picked c [] ((k, slot) ∷ slots) l = inl (took_pending c k slot [] slots l tt)
    picked c ((k, v) ∷ rows) ((j, slot) ∷ slots) l = elim (Ordering-cases (cmp_slice j k)) [
      | inl e ↦
          let q : pick_record p c (some ((id, k), v)) (some ((id, j), slot))
              ≡ pick_pending c (id, j) slot =
            rw (pick_record, e, l.is_forward) refl in
          inl (
            subst (PickResult ((k, v) ∷ rows) ((j, slot) ∷ slots)) (sym q) (
              took_pending c j slot ((k, v) ∷ rows) slots l
                (e, Above-trans j k rows e l.committed.3.0)))
      | inr (inl e) ↦
          let i = (bytes_ord.cmp_eq j k).0 e in
          let q : pick_record p c (some ((id, k), v)) (some ((id, j), slot))
              ≡ pick_both c (id, k) (id, j) slot =
            rw (pick_record, e) refl in
          inl (
            subst (PickResult ((k, v) ∷ rows) ((j, slot) ∷ slots)) (sym q)
              (tie c k v j slot rows slots i l))
      | inr (inr e) ↦
          let f = cmp_slice-swap j k ∙ ap swap e in
          let q : pick_record p c (some ((id, k), v)) (some ((id, j), slot))
              ≡ pick_committed p c (id, k) =
            rw (pick_record, e, l.is_forward) refl in
          inl (
            subst (PickResult ((k, v) ∷ rows) ((j, slot) ∷ slots)) (sym q) (
              took_committed c k v rows ((j, slot) ∷ slots) l
                (f, Above-trans k j slots f l.pending.3.0)))
    ]
