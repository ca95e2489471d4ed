-- ===== src/Memory/Cursor/EndIndex.antt =====
-- The termination of the loop of an index cursor of crates/boa_idb_memory/src/cursor.rs: the entries
-- ahead after a round.
use indexed_db_boa.Base.{
  ℕ, zero, suc, ◌+◌, ◌<◌, ◌≡◌, ◌⊎◌, refl, sym, subst, Bool, true, false, List, Option, none, some,
  if◌then◌else◌, arith, Bool-cases, Result, Result-cases, inl, inr, length,
}
use indexed_db_boa.Base.Lex.{bytes_ord, store_ord}
use indexed_db_boa.Backend.{BackendError}
use indexed_db_boa.Base.Sorted.{Ordering-cases}
use indexed_db_boa.Key.Range.{contains}
use indexed_db_boa.Memory.{IndexKey, index_ord, StorageState, Pending}
use indexed_db_boa.Memory.Cursor.Kinds.{excluded, MemoryCursor}
use indexed_db_boa.Memory.Cursor.Store.{past_upper}
use indexed_db_boa.Memory.Cursor.Index.{
  start_index_lower, start_index_upper, index_start, peek_committed_index, peek_pending_index,
  IndexPick, no_entry, again_entry, entry_pick, pick_committed_index, pick_pending_index,
  pick_both_index, pick_index, cmp_entry, is_last, emit_group, emit_entry, emit_in_range, group_min,
  IndexRound, repeat_index, return_index, emit_index, index_round, advance_index,
}
use indexed_db_boa.Memory.Cursor.Ahead.{ahead, counted_most, admits, next_fewer, owned_entry}

start_past : (id : ℕ) (k : IndexKey) (c : MemoryCursor) → index_start id (some k) c ≡ excluded k
unfolding index_start start_index_lower start_index_upper
start_past id k c = elim (Bool-cases c.desc) [ inl e ↦ rw e refl | inr e ↦ rw e refl ]

module _ (state : StorageState) (p : Pending) (store id : ℕ) (unique : Bool) where
  -- The entries ahead in both maps.
  abbrev size : MemoryCursor → ℕ
  size c =
      ahead c.desc (index_start id c.committed_index_pos c) state.index_entries
      + ahead c.desc (index_start id c.pending_index_pos c) p.index_entries

  committed_fewer :
      (c : MemoryCursor) (k : IndexKey) (v : Unit {0})
      → peek_committed_index state id c ≡ some (k, v)
      → ahead c.desc (excluded k) state.index_entries
        < ahead c.desc (index_start id c.committed_index_pos c) state.index_entries
  unfolding peek_committed_index
  committed_fewer c k v e =
      next_fewer c.desc (index_start id c.committed_index_pos c) state.index_entries k v
        (owned_entry id _ (k, v) e)

  pending_fewer :
      (c : MemoryCursor) (k : IndexKey) (slot : Bool)
      → peek_pending_index p id c ≡ some (k, slot)
      → ahead c.desc (excluded k) p.index_entries
        < ahead c.desc (index_start id c.pending_index_pos c) p.index_entries
  unfolding peek_pending_index
  pending_fewer c k slot e =
      next_fewer c.desc (index_start id c.pending_index_pos c) p.index_entries k slot
        (owned_entry id _ (k, slot) e)

  moved_committed :
      (c : MemoryCursor) (k : IndexKey) (v : Unit {0})
      → peek_committed_index state id c ≡ some (k, v)
      → size (pick_committed_index p c k).0 < size c
  unfolding pick_committed_index index_start start_index_lower start_index_upper
  moved_committed c k v e =
      let d = (pick_committed_index p c k).0 in
      rw (start_past id k d) (omega (arith, committed_fewer c k v e))

  moved_pending :
      (c : MemoryCursor) (k : IndexKey) (slot : Bool)
      → peek_pending_index p id c ≡ some (k, slot)
      → size (pick_pending_index c k slot).0 < size c
  unfolding pick_pending_index index_start start_index_lower start_index_upper
  moved_pending c k slot e =
      let d = (pick_pending_index c k slot).0 in
      rw (start_past id k d) (omega (arith, pending_fewer c k slot e))

  moved_both :
      (c : MemoryCursor) (k : IndexKey) (v : Unit {0}) (j : IndexKey) (slot : Bool)
      → peek_committed_index state id c ≡ some (k, v)
      → peek_pending_index p id c ≡ some (j, slot)
      → size (pick_both_index c k j slot).0 < size c
  unfolding pick_both_index index_start start_index_lower start_index_upper
  moved_both c k v j slot e f =
      let d = (pick_both_index c k j slot).0 in
      rw (start_past id k d, start_past id j d)
        (omega (arith, committed_fewer c k v e, pending_fewer c j slot f))

  tie_cases :
      (c : MemoryCursor) (k : IndexKey) (v : Unit {0}) (j : IndexKey) (slot : Bool)
      → let r = pick_index p c (some (k, v)) (some (j, slot)) in
        (r ≡ pick_committed_index p c k)
        ⊎ ((r ≡ pick_pending_index c j slot) ⊎ (r ≡ pick_both_index c k j slot))
  unfolding pick_index
  tie_cases c k v j slot = elim (Ordering-cases (cmp_entry j.1 k.1)) [
    | inl e ↦ elim (Bool-cases c.desc) [
      | inl d ↦ inl (rw (pick_index, e, d) refl)
      | inr d ↦ inr (inl (rw (pick_index, e, d) refl))
    ]
    | inr (inl e) ↦ inr (inr (rw (pick_index, e) refl))
    | inr (inr e) ↦ elim (Bool-cases c.desc) [
      | inl d ↦ inr (inl (rw (pick_index, e, d) refl))
      | inr d ↦ inl (rw (pick_index, e, d) refl)
    ]
  ]

  picked_fewer :
      (c : MemoryCursor) (x : Option (IndexKey × Unit {0})) (y : Option (IndexKey × Bool))
      → peek_committed_index state id c ≡ x
      → peek_pending_index p id c ≡ y
      → (pick_index p c x y ≡ (c, no_entry)) ⊎ (size (pick_index p c x y).0 < size c)
  unfolding pick_index
  picked_fewer c none none e f = inl refl
  picked_fewer c (some (k, v)) none e f = inr (moved_committed c k v e)
  picked_fewer c none (some (j, slot)) e f = inr (moved_pending c j slot f)
  picked_fewer c (some (k, v)) (some (j, slot)) e f = inr (elim (tie_cases c k v j slot) [
    | inl q ↦ subst (λ r. size r.0 < size c) (sym q) (moved_committed c k v e)
    | inr (inl q) ↦ subst (λ r. size r.0 < size c) (sym q) (moved_pending c j slot f)
    | inr (inr q) ↦ subst (λ r. size r.0 < size c) (sym q) (moved_both c k v j slot e f)
  ])

  -- A round that does not return leaves less than this.
  abbrev Fewer : ℕ → IndexRound → Type 0
  Fewer n (repeat_index d) = size d < n
  Fewer n (return_index d found) = Unit {0}

  emitted_none :
      (n : ℕ) (c : MemoryCursor) → Fewer n (emit_index state p store id unique (c, no_entry))
  unfolding emit_index
  emitted_none n c = tt

  either :
      (n : ℕ) (b : Bool) (x y : IndexRound) → Fewer n x → Fewer n y → Fewer n (if b then x else y)
  either n true x y h k = h
  either n false x y h k = k

  emit_group-Fewer :
      (n : ℕ) (d : MemoryCursor) (idx_key : List ℕ)
      → Fewer n (emit_group state p store id d idx_key)
  unfolding emit_group
  emit_group-Fewer n d idx_key = elim (Result-cases (group_min state p id idx_key)) [
    | inl (pk, e) ↦ rw (Fewer, emit_group, e) tt
    | inr (x, e) ↦ rw (Fewer, emit_group, e) tt
  ]

  emit_in_range-Fewer :
      (n : ℕ) (d : MemoryCursor) (idx_key pk : List ℕ)
      → size d < n
      → Fewer n (emit_in_range state p store id unique d idx_key pk)
  unfolding emit_in_range emit_entry
  emit_in_range-Fewer n d idx_key pk h =
      let e = record d { last_index_key = some idx_key } in
      either n unique
        (if is_last d.last_index_key idx_key
          then repeat_index d
          else if d.desc
          then emit_group state p store id d idx_key
          else emit_entry state p store e idx_key pk)
        (emit_entry state p store d idx_key pk)
        (either n (is_last d.last_index_key idx_key) (repeat_index d)
          (if d.desc
            then emit_group state p store id d idx_key
            else emit_entry state p store e idx_key pk)
          h
          (either n d.desc (emit_group state p store id d idx_key)
            (emit_entry state p store e idx_key pk) (emit_group-Fewer n d idx_key) tt))
        tt

  emitted-Fewer :
      (n : ℕ) (d : MemoryCursor) (pick : IndexPick)
      → size d < n
      → Fewer n (emit_index state p store id unique (d, pick))
  unfolding emit_index
  emitted-Fewer n d no_entry h = tt
  emitted-Fewer n d again_entry h = h
  emitted-Fewer n d (entry_pick idx_key pk true) h = h
  emitted-Fewer n d (entry_pick idx_key pk false) h = elim (Bool-cases (contains d.range idx_key)) [
    | inl e ↦ rw e (emit_in_range-Fewer n d idx_key pk h)
    | inr e ↦ elim (Bool-cases (past_upper d idx_key)) [
      | inl q ↦ rw (e, q) tt
      | inr q ↦ rw (e, q) h
    ]
  ]

  round-Fewer : (c : MemoryCursor) → Fewer (size c) (index_round state p store id unique c)
  unfolding index_round
  round-Fewer c =
      let x = peek_committed_index state id c in
      let y = peek_pending_index p id c in
      elim (picked_fewer c x y refl refl) [
        | inl q ↦
            subst (λ r. Fewer (size c) (emit_index state p store id unique r)) (sym q)
              (emitted_none (size c) c)
        | inr h ↦ emitted-Fewer (size c) (pick_index p c x y).0 (pick_index p c x y).1 h
      ]

  returns_after :
      (fuel n : ℕ) (r : IndexRound)
      → Fewer n r
      → ((d : MemoryCursor)
          → size d < n
          → (out : MemoryCursor × Result BackendError Bool) × (advance_index fuel state p store id
                unique d
              ≡ some out))
      → (out : MemoryCursor × Result BackendError Bool) × ((elim r [
        | repeat_index d ↦ advance_index fuel state p store id unique d
        | return_index d found ↦ some (d, found)
      ])
          ≡ some out)
  returns_after fuel n (repeat_index d) h again = again d h
  returns_after fuel n (return_index d found) h again = ((d, found), refl)

  enough :
      (fuel : ℕ) (c : MemoryCursor)
      → size c < fuel
      → (out : MemoryCursor × Result BackendError Bool) × (advance_index fuel state p store id
            unique c
          ≡ some out)
  unfolding advance_index
  enough zero c h = absurd (omega arith)
  enough (suc fuel) c h =
      returns_after fuel (size c) (index_round state p store id unique c) (round-Fewer c)
        (λ d l. enough fuel d (omega arith))

  -- With a round of fuel for each entry of the maps and one more, the loop returns.
  pub advance_index_returns :
      (c : MemoryCursor)
      → (out : MemoryCursor × Result BackendError Bool) × (advance_index
            (suc (length state.index_entries + length p.index_entries))
            state
            p
            store
            id
            unique
            c
          ≡ some out)
  advance_index_returns c = enough (suc (length state.index_entries + length p.index_entries)) c (
      omega (
        arith,
        counted_most (admits c.desc (index_start id c.committed_index_pos c)) state.index_entries,
        counted_most (admits c.desc (index_start id c.pending_index_pos c)) p.index_entries,
      ))
