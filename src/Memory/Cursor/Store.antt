-- ===== src/Memory/Cursor/Store.antt =====
-- The store cursor of crates/boa_idb_memory/src/cursor.rs.
use indexed_db_boa.Base.{
  ℕ, zero, suc, Bool, true, false, not, List, [], Option, none, some, if◌then◌else◌,
}
use indexed_db_boa.Base.Order.{Ordering, cmp_slice}
use indexed_db_boa.Base.Lex.{bytes_ord, store_ord}
use indexed_db_boa.Base.Map.{get}
use indexed_db_boa.Key.Range.{contains}
use indexed_db_boa.Memory.{RecordKey, record_ord, StorageState, Pending, read_record}
use indexed_db_boa.Memory.Cursor.Kinds.{Bound, included, excluded, unbounded, MemoryCursor}
use indexed_db_boa.Memory.Cursor.Ranges.{next_entry, owned}

abbrev pub is_lt : Ordering → Bool
is_lt Ordering.lt = true
is_lt Ordering.eq = false
is_lt Ordering.gt = false

abbrev pub is_gt : Ordering → Bool
is_gt Ordering.lt = false
is_gt Ordering.eq = false
is_gt Ordering.gt = true

-- The end of each bound: `Included` or `Excluded`.
abbrev pub bound_at {ℓ} : {K : Type ℓ} → K × Bool → Bound K
bound_at (key, true) = included key
bound_at (key, false) = excluded key

-- The key of a range's bound in a store, and whether it is inclusive.
unfoldable pub range_lower : ℕ → Option (List ℕ × Bool) → RecordKey × Bool
range_lower id none = ((id, []), true)
range_lower id (some (lo, open_end)) = ((id, lo), not open_end)

unfoldable pub start_record_lower : ℕ → Option RecordKey → MemoryCursor → Bound RecordKey
start_record_lower id pos c = elim pos [
  | some pos ↦ excluded pos
  | none ↦ bound_at (elim c.floor_record [
    | none ↦ range_lower id c.range.lower
    | some (floor, inclusive) ↦
        if is_gt (cmp_slice floor.1 (range_lower id c.range.lower).0.1)
        then (floor, true)
        else range_lower id c.range.lower
  ])
]

unfoldable pub start_record_upper : ℕ → Option RecordKey → MemoryCursor → Bound RecordKey
start_record_upper id pos c = elim pos [
  | some pos ↦ excluded pos
  | none ↦ elim c.range.upper [
    | none ↦ elim c.floor_record [ none ↦ unbounded | some (floor, inclusive) ↦ included floor ]
    | some (hi, open_end) ↦ elim c.floor_record [
      | none ↦ bound_at ((id, hi), not open_end)
      | some (floor, inclusive) ↦
          if is_lt (cmp_slice floor.1 hi) then included floor else bound_at ((id, hi), not open_end)
    ]
  ]
]

-- Either bound for the direction, from the position of the source that is read.
unfoldable pub record_start : ℕ → Option RecordKey → MemoryCursor → Bound RecordKey
record_start id pos c = if c.desc then start_record_upper id pos c else start_record_lower id pos c

-- `next_committed_record`, with the value that stands there.
unfoldable pub next_committed_record : StorageState → ℕ → MemoryCursor → Option (RecordKey × List ℕ)
next_committed_record state id c =
    owned id (next_entry c.desc (record_start id c.committed_record_pos c) state.records)

unfoldable pub peek_pending_record :
    Pending → ℕ → MemoryCursor → Option (RecordKey × Option (List ℕ))
peek_pending_record p id c =
    owned id (next_entry c.desc (record_start id c.pending_record_pos c) p.records)

-- `slot.is_none()`
abbrev pub is_tombstone : Option (List ℕ) → Bool
is_tombstone none = true
is_tombstone (some val) = false

-- `get(key).is_some_and(|s| s.is_none())`
abbrev pub shadowed : Option (Option (List ℕ)) → Bool
shadowed none = false
shadowed (some slot) = is_tombstone slot

-- What the match on both sources decides: nothing is left, the key with its value when it is pending,
-- or the next round after a tombstone that shadows a committed record. The positions past the key
-- are in the cursor.
pub data RecordPick : Type 0 where
  no_record again_record : RecordPick
  record_pick : RecordKey → Option (List ℕ) → Bool → RecordPick

unfoldable pub pick_committed : Pending → MemoryCursor → RecordKey → MemoryCursor × RecordPick
pick_committed p c ckey = (
  record c { committed_record_pos = some ckey },
  record_pick ckey none (shadowed (get ckey p.records)),
)

unfoldable pub pick_pending : MemoryCursor → RecordKey → Option (List ℕ) → MemoryCursor × RecordPick
pick_pending c pkey slot =
    (record c { pending_record_pos = some pkey }, record_pick pkey slot (is_tombstone slot))

unfoldable pub pick_both :
    MemoryCursor → RecordKey → RecordKey → Option (List ℕ) → MemoryCursor × RecordPick
pick_both c ckey pkey slot = (
  record c { committed_record_pos = some ckey; pending_record_pos = some pkey },
  if is_tombstone slot then again_record else record_pick pkey slot false,
)

unfoldable pub pick_record :
    Pending
    → MemoryCursor
    → Option (RecordKey × List ℕ)
    → Option (RecordKey × Option (List ℕ))
    → MemoryCursor × RecordPick
pick_record p c none none = (c, no_record)
pick_record p c (some (ckey, val)) none = pick_committed p c ckey
pick_record p c none (some (pkey, slot)) = pick_pending c pkey slot
pick_record p c (some (ckey, val)) (some (pkey, slot)) = elim (cmp_slice pkey.1 ckey.1) [
  | Ordering.lt ↦ if c.desc then pick_committed p c ckey else pick_pending c pkey slot
  | Ordering.eq ↦ pick_both c ckey pkey slot
  | Ordering.gt ↦ if c.desc then pick_pending c pkey slot else pick_committed p c ckey
]

unfoldable pub past_upper : MemoryCursor → List ℕ → Bool
past_upper c key =
    if c.desc
    then elim c.range.lower [
      | none ↦ false
      | some (lo, open_end) ↦ elim (cmp_slice key lo) [
        | Ordering.lt ↦ true
        | Ordering.eq ↦ open_end
        | Ordering.gt ↦ false
      ]
    ]
    else elim c.range.upper [
      | none ↦ false
      | some (hi, open_end) ↦ elim (cmp_slice key hi) [
        | Ordering.gt ↦ true
        | Ordering.eq ↦ open_end
        | Ordering.lt ↦ false
      ]
    ]

-- What a round of the loop ends in: the next round, or a return of the source's Boolean.
pub data Round : Type 0 where
  repeat_round : MemoryCursor → Round
  return_round : MemoryCursor → Bool → Round

abbrev pub finished : MemoryCursor → Round
finished c = return_round (record c { exhausted = true; current = none }) false

-- The value of the row: none for a key cursor, the pending value, or the record read.
abbrev pub row_value :
    StorageState → Pending → MemoryCursor → RecordKey → Option (List ℕ) → Option (List ℕ)
row_value state p c key (some val) = if c.key_only then none else some val
row_value state p c key none = if c.key_only then none else read_record state p key

unfoldable pub emit_record : StorageState → Pending → MemoryCursor × RecordPick → Round
emit_record state p (c, no_record) = finished c
emit_record state p (c, again_record) = repeat_round c
emit_record state p (c, record_pick key val tombstoned) =
    if tombstoned
    then repeat_round c
    else if not (contains c.range key.1)
    then (if past_upper c key.1 then finished c else repeat_round c)
    else return_round (record c { current = some (key.1, key.1, row_value state p c key val) }) true

unfoldable pub store_round : StorageState → Pending → ℕ → MemoryCursor → Round
store_round state p id c =
    emit_record state p
      (pick_record p c (next_committed_record state id c) (peek_pending_record p id c))

-- The loop of `advance_store`, on fuel; none when the fuel is short.
unfoldable pub advance_store :
    ℕ → StorageState → Pending → ℕ → MemoryCursor → Option (MemoryCursor × Bool)
advance_store zero state p id c = none
advance_store (suc fuel) state p id c = elim (store_round state p id c) [
  | repeat_round d ↦ advance_store fuel state p id d
  | return_round d found ↦ some (d, found)
]
