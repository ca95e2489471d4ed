-- ===== src/Fs.antt =====
-- The file system backend: crates/boa_idb_fs/src.
pub mod Wal
pub mod Meta
pub mod State
pub mod Commit
pub mod Segment
pub mod Manifest
mod Tests
