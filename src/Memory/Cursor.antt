-- ===== src/Memory/Cursor.antt =====
-- The cursor of the in-memory backend, crates/boa_idb_memory/src/cursor.rs: it merges the committed
-- entries with the transaction's pending ones, an entry for each step.
pub mod Kinds
pub mod Ranges
pub mod Store
pub mod Index
pub mod Calls
pub mod From
pub mod Suffix
pub mod Ahead
pub mod EndStore
pub mod EndIndex
pub mod Returns
pub mod Consumed
pub mod Forward
pub mod Past
pub mod Yielded
pub mod Rounds
pub mod Bounds
pub mod Entries
pub mod Start
pub mod Steps
pub mod Walk
pub mod Backward
mod Tests
