-- ===== src/Memory/Cursor/Walk.antt =====
-- A whole walk of a forward store cursor of crates/boa_idb_memory/src/cursor.rs.
use indexed_db_boa.Base.{
  ℕ, ◌≡◌, refl, ap, ap₂, ◌∙◌, false, ◌&&◌, List, Option, none, some, if◌then◌else◌,
}
use indexed_db_boa.Base.Lex.{bytes_ord, store_ord}
use indexed_db_boa.Base.Map.{Map, get}
use indexed_db_boa.Base.Sorted.{Sorted}
use indexed_db_boa.Key.Range.{contains}
use indexed_db_boa.Memory.{record_ord, StorageState, Pending, read_record}
use indexed_db_boa.Memory.Cursor.Kinds.{
  CursorSeek, to_first, to_key, to_key_and_primary_key, on_store, MemoryCursor,
}
use indexed_db_boa.Memory.Cursor.Calls.{store_fuel, returned, advance, rewound, set_floor, seek}
use indexed_db_boa.Memory.Cursor.Bounds.{at_or_after}
use indexed_db_boa.Memory.Cursor.Start.{Set, rows_left, slots_left, set-Left, set_row, set_fewer}
use indexed_db_boa.Memory.Cursor.Rounds.{advanced}
use indexed_db_boa.Memory.Cursor.Steps.{walk, shown, advance_returns, walk_from}

set_floor_store :
    (id : ℕ) (c : MemoryCursor) (target : CursorSeek)
    → c.kind ≡ on_store id
    → c.desc ≡ false
    → let d = set_floor (rewound c) target in
      Set id target d × (d.range ≡ c.range) × (d.key_only ≡ c.key_only)
unfolding set_floor rewound
set_floor_store id c to_first k f = (
  record {
    is_forward = f;
    is_open = refl;
    has_kind = k;
    no_committed = refl;
    no_pending = refl;
    has_floor = refl;
  },
  refl,
  refl,
)
set_floor_store id c (to_key key) k f = rw k (
  record {
    is_forward = f;
    is_open = refl;
    has_kind = refl;
    no_committed = refl;
    no_pending = refl;
    has_floor = refl;
  },
  refl,
  refl,
)
set_floor_store id c (to_key_and_primary_key key pkey) k f = rw k (
  record {
    is_forward = f;
    is_open = refl;
    has_kind = refl;
    no_committed = refl;
    no_pending = refl;
    has_floor = refl;
  },
  refl,
  refl,
)

-- A forward store cursor, however it was used before, on maps in key order: a seek and then steps of
-- one end, and show each key of the store that the range holds, that is not before the seek's key and
-- that a read in the transaction finds, once, in key order, with the value read unless the cursor is
-- for keys only.
pub walk_rows :
    (state : StorageState) (p : Pending) (id : ℕ) (c : MemoryCursor) (target : CursorSeek)
    → Sorted state.records
    → Sorted p.records
    → c.kind ≡ on_store id
    → c.desc ≡ false
    → (rows : Map (List ℕ) (Option (List ℕ))) × (walk state p c target ≡ some rows)
      × Sorted rows
      × ((j : List ℕ)
          → get j rows
            ≡ shown c.key_only (
                if contains c.range j && at_or_after target j
                then read_record state p (id, j)
                else none))
unfolding walk seek returned
walk_rows state p id c target s1 s2 k f =
    let d = set_floor (rewound c) target in
    let (s, g, h) = set_floor_store id c target k f in
    let l = set-Left state p id target d s1 s2 s in
    let less = set_fewer state p id target d s1 s2 s in
    let (e, found, q, a) =
      advanced state p id d.range d.key_only (store_fuel state p) d
        (rows_left state p id target d s1 s2 s) (slots_left state p id target d s1 s2 s) s1 s2 l
        less in
    let (out, u, w) =
      walk_from state p id d.range d.key_only s1 s2 (store_fuel state p)
        (rows_left state p id target d s1 s2 s) (slots_left state p id target d s1 s2 s)
        (advance state p d) e found
        (advance_returns state p id d.range d.key_only d (some (e, found)) s.has_kind q) a less
        less in
    (
      out,
      u,
      w.sorted,
      λ j.
          w.reads j
          ∙ ap (shown d.key_only) (set_row state p id target d s1 s2 s j)
          ∙ ap₂
              (λ x b. shown b (
                if contains x j && at_or_after target j then read_record state p (id, j) else none))
              g h,
    )
