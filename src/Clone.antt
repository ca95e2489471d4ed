-- ===== src/Clone.antt =====
-- The structured clone codec, crates/boa_idb_core/src/clone, with the errors of error.rs; those that
-- carry only a text carry nothing here.
pub mod Crc
pub mod Varint
mod Tests
use indexed_db_boa.Base.{ℕ}

pub data ScError : Type 0 where
  data_clone invalid_magic corrupted_payload unexpected_eof : ScError
  unsupported_version unknown_tag max_depth_exceeded invalid_memo_ref : ℕ → ScError
  checksum_mismatch value_too_large : ℕ → ℕ → ScError
