-- ===== src/Backend.antt =====
-- The types of a storage backend: crates/boa_idb_core/src/backend/types.rs and error.rs, the key paths
-- of key/path.rs and the sources of proto.rs. A `Utf16String` is the list of its code units; the
-- texts of errors are not modelled.
pub mod Traits
use indexed_db_boa.Base.{ℕ, Bool, List}

pub data KeyPath : Type 0 where
  empty : KeyPath
  single : List ℕ → KeyPath
  array : List (List ℕ) → KeyPath

pub record StoreSpec : Type 0 where
  pub name : List ℕ
  pub key_path : KeyPath
  pub auto_increment : Bool

pub record IndexSpec : Type 0 where
  pub name : List ℕ
  pub key_path : KeyPath
  pub unique : Bool
  pub multi_entry : Bool

pub record IndexMeta : Type 0 where
  pub id : ℕ
  pub store_id : ℕ
  pub name : List ℕ
  pub key_path : KeyPath
  pub unique : Bool
  pub multi_entry : Bool
  pub deleted : Bool

pub record StoreMeta : Type 0 where
  pub id : ℕ
  pub name : List ℕ
  pub key_path : KeyPath
  pub auto_increment : Bool
  pub key_gen : ℕ
  pub indexes : List IndexMeta
  pub deleted : Bool

pub record DatabaseMeta : Type 0 where
  pub name : List ℕ
  pub version : ℕ
  pub stores : List StoreMeta
  pub next_store_id : ℕ
  pub next_index_id : ℕ

pub data SourceRef : Type 0 where
  store_source : ℕ → SourceRef
  index_source : ℕ → ℕ → SourceRef

pub data BackendError : Type 0 where
  constraint not_found invalid_range locked corrupted io internal : BackendError
  quota_exceeded : ℕ → ℕ → BackendError
