-- ===== src/Memory/Cursor/EndStore.antt =====
-- The termination of the loop of a store cursor of crates/boa_idb_memory/src/cursor.rs: the entries
-- ahead after a round.
use indexed_db_boa.Base.{
  ℕ, zero, suc, ◌+◌, ◌<◌, ◌≡◌, ◌⊎◌, refl, sym, subst, Bool, true, false, List, Option, none, some,
  arith, Bool-cases, inl, inr, length,
}
use indexed_db_boa.Base.Order.{cmp_slice}
use indexed_db_boa.Base.Lex.{bytes_ord, store_ord}
use indexed_db_boa.Base.Sorted.{Ordering-cases}
use indexed_db_boa.Key.Range.{contains}
use indexed_db_boa.Memory.{RecordKey, record_ord, StorageState, Pending}
use indexed_db_boa.Memory.Cursor.Kinds.{excluded, MemoryCursor}
use indexed_db_boa.Memory.Cursor.Store.{
  start_record_lower, start_record_upper, record_start, next_committed_record, peek_pending_record,
  RecordPick, no_record, again_record, record_pick, pick_committed, pick_pending, pick_both,
  pick_record, past_upper, Round, repeat_round, return_round, emit_record, store_round,
  advance_store,
}
use indexed_db_boa.Memory.Cursor.Ahead.{ahead, counted_most, admits, next_fewer, owned_entry}

start_past : (id : ℕ) (k : RecordKey) (c : MemoryCursor) → record_start id (some k) c ≡ excluded k
unfolding record_start start_record_lower start_record_upper
start_past id k c = elim (Bool-cases c.desc) [ inl e ↦ rw e refl | inr e ↦ rw e refl ]

module _ (state : StorageState) (p : Pending) (id : ℕ) where
  -- The entries ahead in both maps.
  abbrev size : MemoryCursor → ℕ
  size c =
      ahead c.desc (record_start id c.committed_record_pos c) state.records
      + ahead c.desc (record_start id c.pending_record_pos c) p.records

  committed_fewer :
      (c : MemoryCursor) (k : RecordKey) (v : List ℕ)
      → next_committed_record state id c ≡ some (k, v)
      → ahead c.desc (excluded k) state.records
        < ahead c.desc (record_start id c.committed_record_pos c) state.records
  unfolding next_committed_record
  committed_fewer c k v e =
      next_fewer c.desc (record_start id c.committed_record_pos c) state.records k v
        (owned_entry id _ (k, v) e)

  pending_fewer :
      (c : MemoryCursor) (k : RecordKey) (slot : Option (List ℕ))
      → peek_pending_record p id c ≡ some (k, slot)
      → ahead c.desc (excluded k) p.records
        < ahead c.desc (record_start id c.pending_record_pos c) p.records
  unfolding peek_pending_record
  pending_fewer c k slot e =
      next_fewer c.desc (record_start id c.pending_record_pos c) p.records k slot
        (owned_entry id _ (k, slot) e)

  moved_committed :
      (c : MemoryCursor) (k : RecordKey) (v : List ℕ)
      → next_committed_record state id c ≡ some (k, v)
      → size (pick_committed p c k).0 < size c
  unfolding pick_committed record_start start_record_lower start_record_upper
  moved_committed c k v e =
      let d = (pick_committed p c k).0 in
      rw (start_past id k d) (omega (arith, committed_fewer c k v e))

  moved_pending :
      (c : MemoryCursor) (k : RecordKey) (slot : Option (List ℕ))
      → peek_pending_record p id c ≡ some (k, slot)
      → size (pick_pending c k slot).0 < size c
  unfolding pick_pending record_start start_record_lower start_record_upper
  moved_pending c k slot e =
      let d = (pick_pending c k slot).0 in
      rw (start_past id k d) (omega (arith, pending_fewer c k slot e))

  moved_both :
      (c : MemoryCursor) (k : RecordKey) (v : List ℕ) (j : RecordKey) (slot : Option (List ℕ))
      → next_committed_record state id c ≡ some (k, v)
      → peek_pending_record p id c ≡ some (j, slot)
      → size (pick_both c k j slot).0 < size c
  unfolding pick_both record_start start_record_lower start_record_upper
  moved_both c k v j slot e f =
      let d = (pick_both c k j slot).0 in
      rw (start_past id k d, start_past id j d)
        (omega (arith, committed_fewer c k v e, pending_fewer c j slot f))

  tie_cases :
      (c : MemoryCursor) (k : RecordKey) (v : List ℕ) (j : RecordKey) (slot : Option (List ℕ))
      → let r = pick_record p c (some (k, v)) (some (j, slot)) in
        (r ≡ pick_committed p c k) ⊎ ((r ≡ pick_pending c j slot) ⊎ (r ≡ pick_both c k j slot))
  unfolding pick_record
  tie_cases c k v j slot = elim (Ordering-cases (cmp_slice j.1 k.1)) [
    | inl e ↦ elim (Bool-cases c.desc) [
      | inl d ↦ inl (rw (pick_record, e, d) refl)
      | inr d ↦ inr (inl (rw (pick_record, e, d) refl))
    ]
    | inr (inl e) ↦ inr (inr (rw (pick_record, e) refl))
    | inr (inr e) ↦ elim (Bool-cases c.desc) [
      | inl d ↦ inr (inl (rw (pick_record, e, d) refl))
      | inr d ↦ inl (rw (pick_record, e, d) refl)
    ]
  ]

  picked_fewer :
      (c : MemoryCursor) (x : Option (RecordKey × List ℕ))
      (y : Option (RecordKey × Option (List ℕ)))
      → next_committed_record state id c ≡ x
      → peek_pending_record p id c ≡ y
      → (pick_record p c x y ≡ (c, no_record)) ⊎ (size (pick_record p c x y).0 < size c)
  unfolding pick_record
  picked_fewer c none none e f = inl refl
  picked_fewer c (some (k, v)) none e f = inr (moved_committed c k v e)
  picked_fewer c none (some (j, slot)) e f = inr (moved_pending c j slot f)
  picked_fewer c (some (k, v)) (some (j, slot)) e f = inr (elim (tie_cases c k v j slot) [
    | inl q ↦ subst (λ r. size r.0 < size c) (sym q) (moved_committed c k v e)
    | inr (inl q) ↦ subst (λ r. size r.0 < size c) (sym q) (moved_pending c j slot f)
    | inr (inr q) ↦ subst (λ r. size r.0 < size c) (sym q) (moved_both c k v j slot e f)
  ])

  -- A round that does not return leaves less than this.
  abbrev Fewer : ℕ → Round → Type 0
  Fewer n (repeat_round d) = size d < n
  Fewer n (return_round d found) = Unit {0}

  emitted_none : (n : ℕ) (c : MemoryCursor) → Fewer n (emit_record state p (c, no_record))
  unfolding emit_record
  emitted_none n c = tt

  emitted-Fewer :
      (n : ℕ) (d : MemoryCursor) (pick : RecordPick)
      → size d < n
      → Fewer n (emit_record state p (d, pick))
  unfolding emit_record
  emitted-Fewer n d no_record h = tt
  emitted-Fewer n d again_record h = h
  emitted-Fewer n d (record_pick k val true) h = h
  emitted-Fewer n d (record_pick k val false) h = elim (Bool-cases (contains d.range k.1)) [
    | inl e ↦ rw e tt
    | inr e ↦ elim (Bool-cases (past_upper d k.1)) [ inl q ↦ rw (e, q) tt | inr q ↦ rw (e, q) h ]
  ]

  round-Fewer : (c : MemoryCursor) → Fewer (size c) (store_round state p id c)
  unfolding store_round
  round-Fewer c =
      let x = next_committed_record state id c in
      let y = peek_pending_record p id c in
      elim (picked_fewer c x y refl refl) [
        | inl q ↦
            subst (λ r. Fewer (size c) (emit_record state p r)) (sym q) (emitted_none (size c) c)
        | inr h ↦ emitted-Fewer (size c) (pick_record p c x y).0 (pick_record p c x y).1 h
      ]

  returns_after :
      (fuel n : ℕ) (r : Round)
      → Fewer n r
      → ((d : MemoryCursor)
          → size d < n
          → (out : MemoryCursor × Bool) × (advance_store fuel state p id d ≡ some out))
      → (out : MemoryCursor × Bool) × ((elim r [
        | repeat_round d ↦ advance_store fuel state p id d
        | return_round d found ↦ some (d, found)
      ])
          ≡ some out)
  returns_after fuel n (repeat_round d) h again = again d h
  returns_after fuel n (return_round d found) h again = ((d, found), refl)

  enough :
      (fuel : ℕ) (c : MemoryCursor)
      → size c < fuel
      → (out : MemoryCursor × Bool) × (advance_store fuel state p id c ≡ some out)
  unfolding advance_store
  enough zero c h = absurd (omega arith)
  enough (suc fuel) c h =
      returns_after fuel (size c) (store_round state p id c) (round-Fewer c)
        (λ d l. enough fuel d (omega arith))

  -- With a round of fuel for each entry of the maps and one more, the loop returns.
  pub advance_store_returns :
      (c : MemoryCursor)
      → (out : MemoryCursor × Bool) × (advance_store
            (suc (length state.records + length p.records))
            state
            p
            id
            c
          ≡ some out)
  advance_store_returns c = enough (suc (length state.records + length p.records)) c (
      omega (
        arith,
        counted_most (admits c.desc (record_start id c.committed_record_pos c)) state.records,
        counted_most (admits c.desc (record_start id c.pending_record_pos c)) p.records,
      ))
