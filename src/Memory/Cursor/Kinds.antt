-- ===== src/Memory/Cursor/Kinds.antt =====
-- The types of crates/boa_idb_memory/src/cursor.rs.
use indexed_db_boa.Base.{ℕ, Bool, List, Option}
pub use indexed_db_boa.Backend.Traits.{
  Direction, next, next_unique, prev, prev_unique, is_unique, is_prev, CursorSeek, to_first, to_key,
  to_key_and_primary_key,
}
use indexed_db_boa.Key.Range.{EncodedRange}
use indexed_db_boa.Memory.{RecordKey, IndexKey}

-- `std::ops::Bound`
pub data Bound {ℓ} (K : Type ℓ) : Type ℓ where
  included excluded : K → Bound K
  unbounded : Bound K

-- A store; or a store, an index and whether the cursor is unique.
pub data CursorKind : Type 0 where
  on_store : ℕ → CursorKind
  on_index : ℕ → ℕ → Bool → CursorKind

-- (key, primary_key, optional_value)
abbrev pub CursorEntry : Type 0
CursorEntry = List ℕ × List ℕ × Option (List ℕ)

-- The committed state and the pending maps that the source's cursor refers to are arguments of the
-- calls that read them.
pub record MemoryCursor : Type 0 where
  pub kind : CursorKind
  pub range : EncodedRange
  pub desc : Bool
  pub key_only : Bool
  pub committed_record_pos : Option RecordKey
  pub pending_record_pos : Option RecordKey
  pub committed_index_pos : Option IndexKey
  pub pending_index_pos : Option IndexKey
  pub floor_record : Option (RecordKey × Bool)
  pub floor_index : Option (IndexKey × Bool)
  pub last_index_key : Option (List ℕ)
  pub current : Option CursorEntry
  pub exhausted : Bool
