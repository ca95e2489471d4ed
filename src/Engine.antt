-- ===== src/Engine.antt =====
-- The engine of crates/boa_idb_core/src/engine, with the identifiers and modes of proto.rs. Every
-- identifier (u64) is a number.
pub mod Scheduler
pub mod OpenQueue
pub mod Store
use indexed_db_boa.Base.{Bool, true, false, ℕ}

pub data TxnMode : Type 0 where
  read_only read_write version_change : TxnMode

-- `mode == TxnMode::VersionChange` and `mode == TxnMode::ReadOnly`
abbrev pub is_version_change : TxnMode → Bool
is_version_change read_only = false
is_version_change read_write = false
is_version_change version_change = true

abbrev pub is_read_only : TxnMode → Bool
is_read_only read_only = true
is_read_only read_write = false
is_read_only version_change = false

-- The errors of error.rs, without their texts.
pub data IdbError : Type 0 where
  abort constraint data_clone data_error invalid_access invalid_state not_found : IdbError
  not_readable syntax_error read_only_error transaction_inactive unknown version : IdbError
  quota_exceeded : ℕ → ℕ → IdbError
