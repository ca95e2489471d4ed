-- ===== src/Memory/Cursor/Bounds.antt =====
-- The bound that a range and a seek give a forward store cursor of
-- crates/boa_idb_memory/src/cursor.rs.
use indexed_db_boa.Base.{
  ℕ, ◌≡◌, ◌⊎◌, refl, sym, ap, ◌∙◌, subst, Bool, true, false, not, List, [], ◌∷◌, Option, none, some,
  if◌then◌else◌, arith, Bool-cases, inl, inr,
}
use indexed_db_boa.Base.Order.{Ordering, cmp_slice, cmp_slice-swap, cmp_slice_trans}
use indexed_db_boa.Base.Lex.{bytes_ord, store_ord}
use indexed_db_boa.Base.Sorted.{Ordering-cases}
use indexed_db_boa.Key.Range.{EncodedRange, contains, check_lower}
use indexed_db_boa.Memory.{RecordKey, record_ord}
use indexed_db_boa.Memory.Cursor.Kinds.{
  CursorSeek, to_first, to_key, to_key_and_primary_key, MemoryCursor,
}
use indexed_db_boa.Memory.Cursor.Store.{
  is_gt, bound_at, range_lower, start_record_lower, start_record_upper, record_start,
}

-- The keys of a store that a seek may land on.
abbrev pub at_or_after : CursorSeek → List ℕ → Bool
at_or_after to_first j = true
at_or_after (to_key key) j = not (is_gt (cmp_slice key j))
at_or_after (to_key_and_primary_key key pkey) j = not (is_gt (cmp_slice key j))

-- The bound that a range and a seek start at, and whether it is inclusive.
abbrev lo_at : Option (List ℕ × Bool) → List ℕ × Bool
lo_at none = ([], true)
lo_at (some (lo, open_end)) = (lo, not open_end)

abbrev raised : List ℕ × Bool → List ℕ → List ℕ × Bool
raised b key = if is_gt (cmp_slice key b.0) then (key, true) else b

abbrev pub start_at : EncodedRange → CursorSeek → List ℕ × Bool
start_at range to_first = lo_at range.lower
start_at range (to_key key) = raised (lo_at range.lower) key
start_at range (to_key_and_primary_key key pkey) = raised (lo_at range.lower) key

abbrev pub passes : List ℕ × Bool → List ℕ → Bool
passes b j = elim (cmp_slice b.0 j) [ Ordering.lt ↦ true | Ordering.eq ↦ b.1 | Ordering.gt ↦ false ]

passes_nil : (j : List ℕ) → passes ([], true) j ≡ true
unfolding cmp_slice
passes_nil [] = refl
passes_nil (x ∷ j) = refl

lo_at-passes :
    (lower : Option (List ℕ × Bool)) (j : List ℕ) (rest : Bool)
    → check_lower lower j rest ≡ true
    → passes (lo_at lower) j ≡ true
lo_at-passes none j rest h = passes_nil j
lo_at-passes (some (lo, open_end)) j rest h = ground (arith, cmp_slice-swap lo j)

not_before :
    (key x j : List ℕ)
    → is_gt (cmp_slice key x) ≡ false
    → (cmp_slice x j ≡ Ordering.lt) ⊎ (x ≡ j)
    → is_gt (cmp_slice key j) ≡ false
not_before key x j h (inr e) = subst (λ y. is_gt (cmp_slice key y) ≡ false) e h
not_before key x j h (inl l) = elim (Ordering-cases (cmp_slice key x)) [
  | inl e ↦ rw (cmp_slice_trans key x j e l) refl
  | inr (inl e) ↦
      rw (subst (λ y. cmp_slice y j ≡ Ordering.lt) (sym ((bytes_ord.cmp_eq key x).0 e)) l) refl
  | inr (inr e) ↦ ground (arith, e)
]

passes-order :
    (b : List ℕ × Bool) (j : List ℕ)
    → passes b j ≡ true
    → (cmp_slice b.0 j ≡ Ordering.lt) ⊎ (b.0 ≡ j)
passes-order b j h = elim (Ordering-cases (cmp_slice b.0 j)) [
  | inl e ↦ inl e
  | inr (inl e) ↦ inr ((bytes_ord.cmp_eq b.0 j).0 e)
  | inr (inr e) ↦ ground (arith, e)
]

raised-passes :
    (b : List ℕ × Bool) (key j : List ℕ)
    → passes b j ≡ true
    → passes (raised b key) j ≡ not (is_gt (cmp_slice key j))
raised-passes b key j h = elim (Bool-cases (is_gt (cmp_slice key b.0))) [
  | inl e ↦ rw e ground arith
  | inr e ↦ rw (e, h, not_before key b.0 j e (passes-order b j h)) refl
]

pub start_at-passes :
    (range : EncodedRange) (target : CursorSeek) (j : List ℕ)
    → contains range j ≡ true
    → passes (start_at range target) j ≡ at_or_after target j
unfolding contains
start_at-passes range to_first j h = lo_at-passes range.lower j _ h
start_at-passes range (to_key key) j h =
    raised-passes (lo_at range.lower) key j (lo_at-passes range.lower j _ h)
start_at-passes range (to_key_and_primary_key key pkey) j h =
    raised-passes (lo_at range.lower) key j (lo_at-passes range.lower j _ h)

abbrev pub floor_of : ℕ → CursorSeek → Option (RecordKey × Bool)
floor_of id to_first = none
floor_of id (to_key key) = some ((id, key), true)
floor_of id (to_key_and_primary_key key pkey) = some ((id, key), true)

-- The clamp of the source, on the range's bound and the floor.
abbrev clamped : ℕ → Option (List ℕ × Bool) → Option (RecordKey × Bool) → RecordKey × Bool
clamped id lower floor_record = elim floor_record [
  | none ↦ range_lower id lower
  | some (floor, inclusive) ↦
      if is_gt (cmp_slice floor.1 (range_lower id lower).0.1)
      then (floor, true)
      else range_lower id lower
]

range_lower_at :
    (id : ℕ) (lower : Option (List ℕ × Bool))
    → range_lower id lower ≡ ((id, (lo_at lower).0), (lo_at lower).1)
unfolding range_lower
range_lower_at id none = refl
range_lower_at id (some (lo, open_end)) = refl

clamped-raised :
    (id : ℕ) (lower : Option (List ℕ × Bool)) (key : List ℕ)
    → clamped id lower (some ((id, key), true))
      ≡ ((id, (raised (lo_at lower) key).0), (raised (lo_at lower) key).1)
clamped-raised id lower key =
    rw (range_lower_at id lower) (elim (Bool-cases (is_gt (cmp_slice key (lo_at lower).0))) [
      | inl e ↦ rw e refl
      | inr e ↦ rw e refl
    ])

clamped_start :
    (id : ℕ) (range : EncodedRange) (target : CursorSeek)
    → clamped id range.lower (floor_of id target)
      ≡ ((id, (start_at range target).0), (start_at range target).1)
clamped_start id range to_first = range_lower_at id range.lower
clamped_start id range (to_key key) = clamped-raised id range.lower key
clamped_start id range (to_key_and_primary_key key pkey) = clamped-raised id range.lower key

pub start_bound :
    (id : ℕ) (c : MemoryCursor) (target : CursorSeek)
    → c.desc ≡ false
    → c.floor_record ≡ floor_of id target
    → record_start id none c
      ≡ bound_at ((id, (start_at c.range target).0), (start_at c.range target).1)
unfolding record_start start_record_lower
start_bound id c target f h =
    ap (λ b. if b then start_record_upper id none c else start_record_lower id none c) f
    ∙ ap (λ x. bound_at (clamped id c.range.lower x)) h
    ∙ ap bound_at (clamped_start id c.range target)
