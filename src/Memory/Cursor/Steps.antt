-- ===== src/Memory/Cursor/Steps.antt =====
-- A client's walk of a cursor of crates/boa_idb_memory/src/cursor.rs, a step at a time.
use indexed_db_boa.Base.{
  ℕ, zero, suc, ◌+◌, ◌<◌, ◌≡◌, refl, sym, ap, ap₂, ◌∙◌, Bool, true, false, List, [], ◌∷◌, Option,
  none, some, ok, err, Result, if◌then◌else◌, arith, Bool-cases, inl, inr, length,
}
use indexed_db_boa.Base.Lex.{bytes_ord, store_ord}
use indexed_db_boa.Base.Map.{Map, get, same}
use indexed_db_boa.Base.Sorted.{Above, Sorted}
use indexed_db_boa.Backend.{BackendError}
use indexed_db_boa.Key.Range.{EncodedRange}
use indexed_db_boa.Memory.{record_ord, StorageState, Pending}
use indexed_db_boa.Memory.Cursor.Kinds.{CursorSeek, on_store, on_index, MemoryCursor}
use indexed_db_boa.Memory.Cursor.Index.{advance_index}
use indexed_db_boa.Memory.Cursor.Store.{advance_store}
use indexed_db_boa.Memory.Cursor.Calls.{
  store_fuel, index_fuel, returned, advance, seek, advance_times, step, entry_key, entry_record,
  current_key, current_value,
}
use indexed_db_boa.Memory.Cursor.Consumed.{Rows, Slots}
use indexed_db_boa.Memory.Cursor.Forward.{Left}
use indexed_db_boa.Memory.Cursor.Past.{row}
use indexed_db_boa.Memory.Cursor.Yielded.{Yielded}
use indexed_db_boa.Memory.Cursor.Rounds.{Advanced, advanced}

-- The keys and values that a client sees that steps by one until a call returns false.
unfoldable pub rows_from :
    ℕ
    → StorageState
    → Pending
    → Option (MemoryCursor × Result BackendError Bool)
    → Option (Map (List ℕ) (Option (List ℕ)))
rows_from zero state p r = none
rows_from (suc fuel) state p r = elim r [
  | none ↦ none
  | some (c, err e) ↦ none
  | some (c, ok false) ↦ some []
  | some (c, ok true) ↦ elim (rows_from fuel state p (step state p c 1)) [
    | none ↦ none
    | some rest ↦ some ((current_key c, current_value c) ∷ rest)
  ]
]

unfoldable pub walk :
    StorageState → Pending → MemoryCursor → CursorSeek → Option (Map (List ℕ) (Option (List ℕ)))
walk state p c target = rows_from (store_fuel state p) state p (seek state p c target)

-- What the client sees of a record that is found.
abbrev pub shown : Bool → Option (List ℕ) → Option (Option (List ℕ))
shown key_only none = none
shown key_only (some v) = some (if key_only then none else some v)

shown_once :
    (key_only : Bool) (v : List ℕ)
    → (if key_only then none else if key_only then none else some v)
      ≡ (if key_only then none else some v)
shown_once true v = refl
shown_once false v = refl

module _ (state : StorageState) (p : Pending) (id : ℕ) (range : EncodedRange)
    (key_only : Bool) where
  current_at :
      (d : MemoryCursor) (k v : List ℕ) (rows : Rows) (slots : Slots)
      → Left state p id range key_only d rows slots
      → d.current ≡ some (k, k, if key_only then none else some v)
      → (current_key d ≡ k) × (current_value d ≡ (if key_only then none else some v))
  unfolding current_key current_value
  current_at d k v rows slots l e = (
    ap₂ (λ b x. if b then [] else entry_key x) l.is_open e,
    (λ i. if l.has_key_only i then none else if l.is_open i then none else entry_record (e i))
        ∙ shown_once key_only v,
  )

  pub advance_returns :
      (d : MemoryCursor) (r : Option (MemoryCursor × Bool))
      → d.kind ≡ on_store id
      → advance_store (store_fuel state p) state p id d ≡ r
      → advance state p d ≡ returned r
  unfolding advance
  advance_returns d r k e =
      ap
        (λ x. elim x [
          | on_store store ↦ returned (advance_store (store_fuel state p) state p store d)
          | on_index store id unique ↦ advance_index (index_fuel state p) state p store id unique d
        ])
        k
      ∙ ap returned e

  one_time :
      (d e : MemoryCursor) (found : Bool)
      → advance state p d ≡ some (e, ok found)
      → advance_times state p 1 d ≡ some (e, ok found)
  unfolding advance_times
  one_time d e true h = rw (advance_times, h) refl
  one_time d e false h = rw (advance_times, h) refl

  step_returns :
      (d e : MemoryCursor) (found : Bool)
      → d.exhausted ≡ false
      → advance state p d ≡ some (e, ok found)
      → step state p d 1 ≡ some (e, ok found)
  unfolding step
  step_returns d e found x h =
      ap (λ b. if b then some (d, ok false) else advance_times state p 1 d) x ∙ one_time d e found h

  -- The rows that a walk is to see where these records are left.
  pub record Walked (rows : Rows) (slots : Slots) (out : Map (List ℕ) (Option (List ℕ)))
      : Type 0 where
    pub sorted : Sorted out
    pub after : (j : List ℕ) → Above j rows → Above j slots → Above j out
    pub reads : (j : List ℕ) → get j out ≡ shown key_only (row range rows slots j)

  ended-Walked :
      (rows : Rows) (slots : Slots)
      → ((j : List ℕ) → row range rows slots j ≡ none)
      → Walked rows slots []
  unfolding get
  ended-Walked rows slots n = record {
    sorted = tt;
    after = λ j a b. tt;
    reads = λ j. sym (ap (shown key_only) (n j));
  }

  Yielded-Walked :
      (k v : List ℕ) (rows : Rows) (slots : Slots) (rows' : Rows) (slots' : Slots)
      (rest : Map (List ℕ) (Option (List ℕ)))
      → Yielded range k v rows slots rows' slots'
      → Walked rows' slots' rest
      → Walked rows slots ((k, if key_only then none else some v) ∷ rest)
  unfolding get
  Yielded-Walked k v rows slots rows' slots' rest y w = record {
    sorted = (w.after k y.over_rows y.over_slots, w.sorted);
    after = λ j a b. let (l, c, d) = y.later j a b in (l, w.after j c d);
    reads = λ j. elim (Bool-cases (same k j)) [
      | inl e ↦ ground (arith, e, y.reads j)
      | inr e ↦ ground (arith, e, y.reads j, w.reads j)
    ];
  }

  pub walk_from :
      (s1 : Sorted state.records) (s2 : Sorted p.records) (fuel : ℕ) (rows : Rows) (slots : Slots)
      (r : Option (MemoryCursor × Result BackendError Bool)) (d : MemoryCursor) (found : Bool)
      → r ≡ some (d, ok found)
      → Advanced state p id range key_only rows slots d found
      → length rows + length slots < fuel
      → length rows + length slots < store_fuel state p
      → (out : Map (List ℕ) (Option (List ℕ))) × (rows_from fuel state p r ≡ some out)
        × Walked rows slots out
  unfolding rows_from returned
  walk_from s1 s2 zero rows slots r d found e a h m = absurd (omega arith)
  walk_from s1 s2 (suc fuel) rows slots r d false e (x, n) h m =
      ([], rw e refl, ended-Walked rows slots n)
  walk_from s1 s2 (suc fuel) rows slots r d true e (k, v, rows', slots', l, y, c) h m =
      let (f, found, q, b) =
        advanced state p id range key_only (store_fuel state p) d rows' slots' s1 s2 l
          (omega (arith, y.fewer)) in
      let t = step_returns d f found l.is_open (advance_returns d (some (f, found)) l.has_kind q) in
      let (rest, u, w) =
        walk_from s1 s2 fuel rows' slots' (step state p d 1) f found t b (omega (arith, y.fewer))
          (omega (arith, y.fewer)) in
      let (g, j) = current_at d k v rows' slots' l c in
      (
        (k, if key_only then none else some v) ∷ rest,
        rw (e, u, g, j) refl,
        Yielded-Walked k v rows slots rows' slots' rest y w,
      )
