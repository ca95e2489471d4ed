-- ===== src/Memory/Cursor/Rounds.antt =====
-- The rounds and the loop of a forward store cursor of crates/boa_idb_memory/src/cursor.rs, on the
-- records left.
use indexed_db_boa.Base.{
  ℕ, zero, suc, ◌+◌, ◌<◌, ◌≡◌, refl, sym, ap, ◌∙◌, subst, Bool, true, false, List, [], Option, none,
  some, if◌then◌else◌, arith, Bool-cases, inl, inr, length,
}
use indexed_db_boa.Base.Lex.{bytes_ord, store_ord}
use indexed_db_boa.Base.Map.{get}
use indexed_db_boa.Base.Sorted.{Sorted}
use indexed_db_boa.Key.Range.{EncodedRange, contains}
use indexed_db_boa.Memory.{record_ord, StorageState, Pending}
use indexed_db_boa.Memory.Cursor.Kinds.{MemoryCursor, CursorEntry}
use indexed_db_boa.Memory.Cursor.Store.{
  start_record_lower, start_record_upper, record_start, next_committed_record, peek_pending_record,
  RecordPick, pick_record, past_upper, record_pick, no_record, Round, repeat_round, return_round,
  row_value, emit_record, store_round, advance_store,
}
use indexed_db_boa.Memory.Cursor.Ranges.{next_entry, owned}
use indexed_db_boa.Memory.Cursor.Suffix.{first_entry, Remains-first}
use indexed_db_boa.Memory.Cursor.Consumed.{Rows, Slots, Consumed}
use indexed_db_boa.Memory.Cursor.Forward.{Left, PickResult, picked}
use indexed_db_boa.Memory.Cursor.Past.{row, merged-Above, past_upper-contains}
use indexed_db_boa.Memory.Cursor.Yielded.{Skipped, Yielded, skipped, yielded}

module _ (state : StorageState) (p : Pending) (id : ℕ) (range : EncodedRange)
    (key_only : Bool) where
  abbrev pub Ended : Rows → Slots → MemoryCursor → Type 0
  Ended rows slots d = (d.exhausted ≡ true) × ((j : List ℕ) → row range rows slots j ≡ none)

  abbrev pub At : Rows → Slots → MemoryCursor → Type 0
  At rows slots d =
      (k : List ℕ) × (v : List ℕ) × (rows' : Rows) × (slots' : Slots) × Left state p id range
        key_only d rows' slots'
      × Yielded range k v rows slots rows' slots'
      × (d.current ≡ some (k, k, if key_only then none else some v))

  -- What an advance returns.
  abbrev pub Advanced : Rows → Slots → MemoryCursor → Bool → Type 0
  Advanced rows slots d true = At rows slots d
  Advanced rows slots d false = Ended rows slots d

  abbrev RoundResult : Rows → Slots → Round → Type 0
  RoundResult rows slots (repeat_round d) =
      (rows' : Rows) × (slots' : Slots) × Left state p id range key_only d rows' slots'
      × Skipped range rows slots rows' slots'
  RoundResult rows slots (return_round d found) = Advanced rows slots d found

  Left-current :
      (d : MemoryCursor) (rows : Rows) (slots : Slots) (entry : Option CursorEntry)
      → Left state p id range key_only d rows slots
      → Left state p id range key_only (record d { current = entry }) rows slots
  unfolding record_start start_record_lower start_record_upper
  Left-current d rows slots entry l = record {
    is_forward = l.is_forward;
    has_range = l.has_range;
    has_key_only = l.has_key_only;
    is_open = l.is_open;
    has_kind = l.has_kind;
    committed = l.committed;
    pending = l.pending;
    reads_left = l.reads_left;
  }

  past_end :
      (d : MemoryCursor) (k v : List ℕ) (rows : Rows) (slots : Slots) (rows' : Rows)
      (slots' : Slots)
      → Left state p id range key_only d rows' slots'
      → Consumed k (some v) rows slots rows' slots'
      → contains range k ≡ false
      → past_upper d k ≡ true
      → (j : List ℕ) → row range rows slots j ≡ none
  past_end d k v rows slots rows' slots' l c h q j =
      (skipped range k (some v) rows slots rows' slots' c (inr h)).same_rows j
      ∙ (elim (merged-Above k j rows' slots' c.over_rows c.over_slots) [
        | inl lt ↦
            let e =
              sym (ap (λ x. contains x j) l.has_range)
              ∙ past_upper-contains d k j l.is_forward q lt in
            rw (row, e) refl
        | inr n ↦ ground (arith, n)
      ])

  -- The range check of a record that is not a tombstone.
  emitted :
      (d : MemoryCursor) (k v : List ℕ) (val : Option (List ℕ)) (rows : Rows) (slots : Slots)
      (rows' : Rows) (slots' : Slots)
      → Left state p id range key_only d rows' slots'
      → Consumed k (some v) rows slots rows' slots'
      → row_value state p d (id, k) val ≡ (if key_only then none else some v)
      → RoundResult rows slots (emit_record state p (d, record_pick (id, k) val false))
  unfolding emit_record
  emitted d k v val rows slots rows' slots' l c e =
      let r = ap (λ x. contains x k) l.has_range in
      elim (Bool-cases (contains range k)) [
        | inl h ↦ rw (r ∙ h) (
          k,
          v,
          rows',
          slots',
          Left-current d rows' slots' _ l,
          yielded range k v rows slots rows' slots' c h,
          ap (λ x. some (k, k, x)) e,
        )
        | inr h ↦ elim (Bool-cases (past_upper d k)) [
          | inl q ↦ rw (r ∙ h, q) (refl, past_end d k v rows slots rows' slots' l c h q)
          | inr q ↦
              rw (r ∙ h, q)
                (rows', slots', l, skipped range k (some v) rows slots rows' slots' c (inr h))
        ]
      ]

  -- A result for what a skipped key left is one for what was left before.
  after_skip :
      (found : Bool) (d : MemoryCursor) (rows : Rows) (slots : Slots) (rows' : Rows)
      (slots' : Slots)
      → Skipped range rows slots rows' slots'
      → Advanced rows' slots' d found
      → Advanced rows slots d found
  after_skip false d rows slots rows' slots' k (e, n) = (e, λ j. k.same_rows j ∙ n j)
  after_skip true d rows slots rows' slots' k (key, v, rows'', slots'', l, y, e) = (
    key,
    v,
    rows'',
    slots'',
    l,
    record {
      reads = λ j. k.same_rows j ∙ y.reads j;
      over_rows = y.over_rows;
      over_slots = y.over_slots;
      fewer = omega (arith, k.fewer, y.fewer);
      later = λ j a b. let (c, d) = k.later j a b in y.later j c d;
    },
    e,
  )

  emitted_pick :
      (r : MemoryCursor × RecordPick) (rows : Rows) (slots : Slots)
      → PickResult state p id range key_only rows slots r
      → RoundResult rows slots (emit_record state p r)
  unfolding emit_record
  emitted_pick (d, pick) rows slots (k, slot, rows', slots', l, c, picks) = elim picks [
    | inl (n, e) ↦ rw e (rows', slots', l, skipped range k slot rows slots rows' slots' c (inl n))
    | inr (inl (val, e, n)) ↦
        rw e (rows', slots', l, skipped range k slot rows slots rows' slots' c (inl n))
    | inr (inr (v, val, e, n, g)) ↦ rw e (
        emitted d k v val rows slots rows' slots' l
          (subst (λ x. Consumed k x rows slots rows' slots') n c) g)
  ]

  emitted_end :
      (c : MemoryCursor) (r : MemoryCursor × RecordPick) (rows : Rows) (slots : Slots)
      → rows ≡ []
      → slots ≡ []
      → r ≡ (c, no_record)
      → RoundResult rows slots (emit_record state p r)
  unfolding emit_record get
  emitted_end c r rows slots e f g = rw (e, f, g) (refl, λ j. ground arith)

  committed_next :
      (c : MemoryCursor) (rows : Rows) (slots : Slots)
      → Left state p id range key_only c rows slots
      → next_committed_record state id c ≡ first_entry id rows
  unfolding next_committed_record
  committed_next c rows slots l =
      ap (λ b. owned id (next_entry b (record_start id c.committed_record_pos c) state.records))
        l.is_forward
      ∙ Remains-first id state.records (record_start id c.committed_record_pos c) rows l.committed

  pending_next :
      (c : MemoryCursor) (rows : Rows) (slots : Slots)
      → Left state p id range key_only c rows slots
      → peek_pending_record p id c ≡ first_entry id slots
  unfolding peek_pending_record
  pending_next c rows slots l =
      ap (λ b. owned id (next_entry b (record_start id c.pending_record_pos c) p.records))
        l.is_forward
      ∙ Remains-first id p.records (record_start id c.pending_record_pos c) slots l.pending

  round_result :
      (c : MemoryCursor) (rows : Rows) (slots : Slots)
      → Sorted state.records
      → Sorted p.records
      → Left state p id range key_only c rows slots
      → RoundResult rows slots (store_round state p id c)
  unfolding store_round
  round_result c rows slots s1 s2 l =
      rw (committed_next c rows slots l, pending_next c rows slots l)
        (elim (picked state p id range key_only s1 s2 c rows slots l) [
          | inl r ↦
              emitted_pick (pick_record p c (first_entry id rows) (first_entry id slots)) rows slots
                r
          | inr (e, f, g) ↦
              emitted_end c (pick_record p c (first_entry id rows) (first_entry id slots)) rows
                slots e f g
        ])

  -- The loop returns this.
  abbrev pub Returns : Option (MemoryCursor × Bool) → Rows → Slots → Type 0
  Returns r rows slots =
      (d : MemoryCursor) × (found : Bool) × (r ≡ some (d, found)) × Advanced rows slots d found

  returns :
      (fuel : ℕ) (r : Round) (rows : Rows) (slots : Slots)
      → RoundResult rows slots r
      → ((d : MemoryCursor) (rows' : Rows) (slots' : Slots)
          → Left state p id range key_only d rows' slots'
          → length rows' + length slots' < length rows + length slots
          → Returns (advance_store fuel state p id d) rows' slots')
      → Returns
          (elim r [
            | repeat_round d ↦ advance_store fuel state p id d
            | return_round d found ↦ some (d, found)
          ])
          rows
          slots
  returns fuel (return_round d found) rows slots a again = (d, found, refl, a)
  returns fuel (repeat_round d) rows slots (rows', slots', l, k) again =
      let (e, found, q, a) = again d rows' slots' l k.fewer in
      (e, found, q, after_skip found e rows slots rows' slots' k a)

  -- With a round of fuel for each entry left and one more, the loop returns.
  pub advanced :
      (fuel : ℕ) (c : MemoryCursor) (rows : Rows) (slots : Slots)
      → Sorted state.records
      → Sorted p.records
      → Left state p id range key_only c rows slots
      → length rows + length slots < fuel
      → Returns (advance_store fuel state p id c) rows slots
  unfolding advance_store
  advanced zero c rows slots s1 s2 l h = absurd (omega arith)
  advanced (suc fuel) c rows slots s1 s2 l h =
      returns fuel (store_round state p id c) rows slots (round_result c rows slots s1 s2 l)
        (λ d rows' slots' m less. advanced fuel d rows' slots' s1 s2 m (omega arith))
