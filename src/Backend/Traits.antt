-- ===== src/Backend/Traits.antt =====
-- The interface of a transaction of a storage backend, crates/boa_idb_core/src/backend/traits.rs, with
-- the directions of proto.rs and the seek targets of backend/types.rs.
use indexed_db_boa.Base.{ℕ, Bool, true, false, List, Option, Result}
use indexed_db_boa.Key.Range.{EncodedRange}
use indexed_db_boa.Backend.{SourceRef, BackendError}

pub data Direction : Type 0 where
  next next_unique prev prev_unique : Direction

abbrev pub is_unique : Direction → Bool
is_unique next = false
is_unique next_unique = true
is_unique prev = false
is_unique prev_unique = true

abbrev pub is_prev : Direction → Bool
is_prev next = false
is_prev next_unique = false
is_prev prev = true
is_prev prev_unique = true

pub data CursorSeek : Type 0 where
  to_first : CursorSeek
  to_key : List ℕ → CursorSeek
  to_key_and_primary_key : List ℕ → List ℕ → CursorSeek

-- The calls of `BackendTxn`, and of the `BackendCursor` that borrows it, that deletion uses: `T` is the
-- transaction, `C` the cursor. A call of the cursor is none where a model's fuel is short.
pub record BackendTxn (T C : Type 0) : Type 0 where
  pub delete_range : T → ℕ → EncodedRange → T × Result BackendError ℕ
  pub clear : T → ℕ → T × Result BackendError (Unit {0})
  pub index_delete_by_primary : T → ℕ → List ℕ → T × Result BackendError (Unit {0})
  pub scan : T → SourceRef → EncodedRange → Direction → Bool → Result BackendError C
  pub seek : T → C → CursorSeek → Option (C × Result BackendError Bool)
  pub step : T → C → ℕ → Option (C × Result BackendError Bool)
  pub current_key : C → List ℕ
