-- ===== src/Memory/Cursor/Index.antt =====
-- The index cursor of crates/boa_idb_memory/src/cursor.rs.
use indexed_db_boa.Base.{
  ℕ, zero, suc, Bool, true, false, not, ◌&&◌, List, [], ◌∷◌, Option, none, some, Result, ok, err,
  if◌then◌else◌, ◌==◌,
}
use indexed_db_boa.Base.Order.{Ordering, cmp_slice, then_with}
use indexed_db_boa.Base.Lex.{bytes_ord, store_ord}
use indexed_db_boa.Base.Map.{Map, get, same}
use indexed_db_boa.Backend.{BackendError, internal}
use indexed_db_boa.Key.Range.{contains}
use indexed_db_boa.Memory.{IndexKey, record_ord, index_ord, StorageState, Pending, read_record}
use indexed_db_boa.Memory.Cursor.Kinds.{Bound, included, excluded, unbounded, MemoryCursor}
use indexed_db_boa.Memory.Cursor.Ranges.{next_entry, entries_from, owned}
use indexed_db_boa.Memory.Cursor.Store.{is_lt, is_gt, bound_at, past_upper}

-- The order of the pairs of index key and primary key.
abbrev pub cmp_entry : List ℕ × List ℕ → List ℕ × List ℕ → Ordering
cmp_entry a b = then_with (cmp_slice a.0 b.0) (cmp_slice a.1 b.1)

unfoldable pub index_range_lower : ℕ → Option (List ℕ × Bool) → IndexKey × Bool
index_range_lower id none = ((id, ([], [])), true)
index_range_lower id (some (lo, open_end)) = ((id, (lo, [])), not open_end)

unfoldable pub start_index_lower : ℕ → Option IndexKey → MemoryCursor → Bound IndexKey
start_index_lower id pos c = elim pos [
  | some pos ↦ excluded pos
  | none ↦ bound_at (elim c.floor_index [
    | none ↦ index_range_lower id c.range.lower
    | some (floor, inclusive) ↦
        if is_gt (cmp_entry floor.1 (index_range_lower id c.range.lower).0.1)
        then (floor, true)
        else index_range_lower id c.range.lower
  ])
]

-- An inclusive upper bound leaves the scan unbounded.
unfoldable pub start_index_upper : ℕ → Option IndexKey → MemoryCursor → Bound IndexKey
start_index_upper id pos c = elim pos [
  | some pos ↦ excluded pos
  | none ↦ elim c.floor_index [
    | some (floor, inclusive) ↦ included floor
    | none ↦ elim c.range.upper [
      | none ↦ unbounded
      | some (hi, open_end) ↦ if open_end then excluded (id, (hi, [])) else unbounded
    ]
  ]
]

unfoldable pub index_start : ℕ → Option IndexKey → MemoryCursor → Bound IndexKey
index_start id pos c = if c.desc then start_index_upper id pos c else start_index_lower id pos c

unfoldable pub peek_committed_index : StorageState → ℕ → MemoryCursor → Option (IndexKey × Unit {0})
peek_committed_index state id c =
    owned id (next_entry c.desc (index_start id c.committed_index_pos c) state.index_entries)

unfoldable pub peek_pending_index : Pending → ℕ → MemoryCursor → Option (IndexKey × Bool)
peek_pending_index p id c =
    owned id (next_entry c.desc (index_start id c.pending_index_pos c) p.index_entries)

-- `get(key).is_some_and(|live| !live)`
abbrev pub is_dead : Option Bool → Bool
is_dead none = false
is_dead (some live) = not live

pub data IndexPick : Type 0 where
  no_entry again_entry : IndexPick
  entry_pick : List ℕ → List ℕ → Bool → IndexPick

unfoldable pub pick_committed_index : Pending → MemoryCursor → IndexKey → MemoryCursor × IndexPick
pick_committed_index p c ckey = (
  record c { committed_index_pos = some ckey },
  entry_pick ckey.1.0 ckey.1.1 (is_dead (get ckey p.index_entries)),
)

unfoldable pub pick_pending_index : MemoryCursor → IndexKey → Bool → MemoryCursor × IndexPick
pick_pending_index c pkey live =
    (record c { pending_index_pos = some pkey }, entry_pick pkey.1.0 pkey.1.1 (not live))

unfoldable pub pick_both_index :
    MemoryCursor → IndexKey → IndexKey → Bool → MemoryCursor × IndexPick
pick_both_index c ckey pkey live = (
  record c { committed_index_pos = some ckey; pending_index_pos = some pkey },
  if live then entry_pick pkey.1.0 pkey.1.1 false else again_entry,
)

unfoldable pub pick_index :
    Pending
    → MemoryCursor
    → Option (IndexKey × Unit {0})
    → Option (IndexKey × Bool)
    → MemoryCursor × IndexPick
pick_index p c none none = (c, no_entry)
pick_index p c (some (ckey, u)) none = pick_committed_index p c ckey
pick_index p c none (some (pkey, live)) = pick_pending_index c pkey live
pick_index p c (some (ckey, u)) (some (pkey, live)) = elim (cmp_entry pkey.1 ckey.1) [
  | Ordering.lt ↦ if c.desc then pick_committed_index p c ckey else pick_pending_index c pkey live
  | Ordering.eq ↦ pick_both_index c ckey pkey live
  | Ordering.gt ↦ if c.desc then pick_pending_index c pkey live else pick_committed_index p c ckey
]

-- The value that stands under a primary key, none for a key cursor.
abbrev pub entry_value : StorageState → Pending → MemoryCursor → ℕ → List ℕ → Option (List ℕ)
entry_value state p c store pk = if c.key_only then none else read_record state p (store, pk)

-- The loops of `group_min`, over the entries from the group's start on: the first that is the
-- group's and not deleted, up to the group's end.
unfoldable pub committed_min : Pending → ℕ → List ℕ → Map IndexKey (Unit {0}) → Option (List ℕ)
committed_min p id idx_key [] = none
committed_min p id idx_key (((iid, (ik, pk)), u) ∷ m) =
    let rest = committed_min p id idx_key m in
    if not ((iid == id) && same ik idx_key)
    then none
    else if is_dead (get (iid, (ik, pk)) p.index_entries)
    then rest
    else some pk

unfoldable pub pending_min : ℕ → List ℕ → Map IndexKey Bool → Option (List ℕ)
pending_min id idx_key [] = none
pending_min id idx_key (((iid, (ik, pk)), live) ∷ m) =
    let rest = pending_min id idx_key m in
    if not ((iid == id) && same ik idx_key) then none else if live then some pk else rest

unfoldable pub smaller_min : Option (List ℕ) → Option (List ℕ) → Result BackendError (List ℕ)
smaller_min none none = err internal
smaller_min (some cpk) none = ok cpk
smaller_min none (some ppk) = ok ppk
smaller_min (some cpk) (some ppk) = if is_lt (cmp_slice ppk cpk) then ok ppk else ok cpk

-- The smallest primary key of a group; `entry_value` is the value beside it.
unfoldable pub group_min : StorageState → Pending → ℕ → List ℕ → Result BackendError (List ℕ)
group_min state p id idx_key =
    let start = included (id, (idx_key, [])) in
    smaller_min (committed_min p id idx_key (entries_from start state.index_entries))
      (pending_min id idx_key (entries_from start p.index_entries))

-- What a round of the loop ends in: the next round, or a return.
pub data IndexRound : Type 0 where
  repeat_index : MemoryCursor → IndexRound
  return_index : MemoryCursor → Result BackendError Bool → IndexRound

abbrev pub finished_index : MemoryCursor → IndexRound
finished_index c = return_index (record c { exhausted = true; current = none }) (ok false)

-- `last_index_key.as_ref().is_some_and(|last| *last == idx_key)`
abbrev pub is_last : Option (List ℕ) → List ℕ → Bool
is_last none idx_key = false
is_last (some last) idx_key = same last idx_key

-- The descending unique cursor: the group's smallest primary key, and both positions below the group.
unfoldable pub emit_group : StorageState → Pending → ℕ → ℕ → MemoryCursor → List ℕ → IndexRound
emit_group state p store id c idx_key = elim (group_min state p id idx_key) [
  | err e ↦ return_index c (err e)
  | ok min_pkey ↦
      return_index
        (record c {
          last_index_key = some idx_key;
          committed_index_pos = some (id, (idx_key, min_pkey));
          pending_index_pos = some (id, (idx_key, min_pkey));
          current = some (idx_key, min_pkey, entry_value state p c store min_pkey);
        })
        (ok true)
]

unfoldable pub emit_entry : StorageState → Pending → ℕ → MemoryCursor → List ℕ → List ℕ → IndexRound
emit_entry state p store c idx_key pk =
    return_index (record c { current = some (idx_key, pk, entry_value state p c store pk) })
      (ok true)

-- What follows the range check.
unfoldable pub emit_in_range :
    StorageState → Pending → ℕ → ℕ → Bool → MemoryCursor → List ℕ → List ℕ → IndexRound
emit_in_range state p store id unique c idx_key pk =
    if unique
    then (if is_last c.last_index_key idx_key
        then repeat_index c
        else if c.desc
        then emit_group state p store id c idx_key
        else emit_entry state p store (record c { last_index_key = some idx_key }) idx_key pk)
    else emit_entry state p store c idx_key pk

-- `past_upper_index` is `past_upper` again.
unfoldable pub emit_index :
    StorageState → Pending → ℕ → ℕ → Bool → MemoryCursor × IndexPick → IndexRound
emit_index state p store id unique (c, no_entry) = finished_index c
emit_index state p store id unique (c, again_entry) = repeat_index c
emit_index state p store id unique (c, entry_pick idx_key pk tombstoned) =
    if tombstoned
    then repeat_index c
    else if not (contains c.range idx_key)
    then (if past_upper c idx_key then finished_index c else repeat_index c)
    else emit_in_range state p store id unique c idx_key pk

unfoldable pub index_round : StorageState → Pending → ℕ → ℕ → Bool → MemoryCursor → IndexRound
index_round state p store id unique c =
    emit_index state p store id unique
      (pick_index p c (peek_committed_index state id c) (peek_pending_index p id c))

-- The loop of `advance_index`, on fuel; none when the fuel is short.
unfoldable pub advance_index :
    ℕ
    → StorageState
    → Pending
    → ℕ
    → ℕ
    → Bool
    → MemoryCursor
    → Option (MemoryCursor × Result BackendError Bool)
advance_index zero state p store id unique c = none
advance_index (suc fuel) state p store id unique c = elim (index_round state p store id unique c) [
  | repeat_index d ↦ advance_index fuel state p store id unique d
  | return_index d r ↦ some (d, r)
]
