-- ===== src/Key.antt =====
-- Keys: crates/boa_idb_core/src/key/value.rs, with the limits of limits.rs and the key errors of
-- error.rs. A code unit, a byte and the bits of an f64 are numbers; `IsWellTyped` states the ranges
-- that the Rust types u16, u8 and f64 guarantee.
pub mod Compare
pub mod Encode
pub mod Decode
pub mod Range
pub mod Words
pub mod Order
pub mod Units
pub mod Canonical
pub mod Floats
pub mod RoundTrip
mod Tests
use indexed_db_boa.Base.{
  ℕ, ◌+◌, ◌*◌, ◌<◌, ◌^◌, Bool, List, All, Result, ok, err, ◌>>=◌, ◌>>◌, ltb, if◌then◌else◌,
}
use indexed_db_boa.Float.{IsU64, is_nan}

-- A `Vec<Key>` inside a key is the list type of the block.
mutual
  pub data Key : Type 0 where
    number : ℕ → Key
    date : ℕ → Key
    string : List ℕ → Key
    binary : List ℕ → Key
    array : Keys → Key

  pub data Keys : Type 0 where
    nil : Keys
    cons : Key → Keys → Keys

-- The texts that the source puts into `InvalidValue` and `InvalidEncoding`.
pub data Fault : Type 0 where
  number_nan date_nan : Fault
  unknown_tag : ℕ → Fault
  string_end string_lone_zero string_unterminated : Fault
  binary_end binary_lone_zero binary_unterminated : Fault
  truncated_two truncated_three invalid_continuation : Fault
  invalid_leading : ℕ → Fault

pub data KeyError : Type 0 where
  invalid_type : KeyError
  invalid_value : Fault → KeyError
  key_too_large : ℕ → ℕ → KeyError
  max_depth_exceeded : ℕ → KeyError
  invalid_encoding : Fault → KeyError
  unexpected_eof : KeyError
  -- No Rust value: the decoder's element loop ran out of fuel. Key/Decode/Bounds shows it never does.
  out_of_fuel : KeyError

pub record LimitConfig : Type 0 where
  pub max_key_len : ℕ
  pub max_key_depth : ℕ
  pub max_value_len : ℕ
  pub max_clone_depth : ℕ

abbrev pub default_limits : LimitConfig
default_limits = record {
  max_key_len = 1024 * 1024;
  max_key_depth = 32;
  max_value_len = 64 * 1024 * 1024;
  max_clone_depth = 512;
}

-- `if n.is_nan() { return Err(..) } Ok(())`
abbrev pub check_nan : ℕ → Fault → Result KeyError (Unit {0})
check_nan b fault = if is_nan b then err (invalid_value fault) else ok tt

unfoldable mutual
  pub validate_recursive : Key → ℕ → LimitConfig → Result KeyError (Unit {0})
  validate_recursive (number n) depth limits =
      if ltb limits.max_key_depth depth
      then err (max_depth_exceeded limits.max_key_depth)
      else check_nan n number_nan
  validate_recursive (date d) depth limits =
      if ltb limits.max_key_depth depth
      then err (max_depth_exceeded limits.max_key_depth)
      else check_nan d date_nan
  validate_recursive (string s) depth limits =
      if ltb limits.max_key_depth depth
      then err (max_depth_exceeded limits.max_key_depth)
      else ok tt
  validate_recursive (binary b) depth limits =
      if ltb limits.max_key_depth depth
      then err (max_depth_exceeded limits.max_key_depth)
      else ok tt
  validate_recursive (array arr) depth limits =
      if ltb limits.max_key_depth depth
      then err (max_depth_exceeded limits.max_key_depth)
      else validate_items arr (depth + 1) limits

  pub validate_items : Keys → ℕ → LimitConfig → Result KeyError (Unit {0})
  validate_items nil depth limits = ok tt
  validate_items (cons item rest) depth limits =
      validate_recursive item depth limits >> validate_items rest depth limits

unfoldable pub validate : Key → LimitConfig → Result KeyError (Unit {0})
validate key limits = validate_recursive key 0 limits

abbrev pub IsUnit : ℕ → Type 0
IsUnit u = u < 2 ^ 16

abbrev pub IsByte : ℕ → Type 0
IsByte b = b < 256

abbrev mutual
  pub IsWellTyped : Key → Type 0
  IsWellTyped (number n) = IsU64 n
  IsWellTyped (date d) = IsU64 d
  IsWellTyped (string s) = All IsUnit s
  IsWellTyped (binary b) = All IsByte b
  IsWellTyped (array arr) = AllWellTyped arr

  pub AllWellTyped : Keys → Type 0
  AllWellTyped nil = Unit {0}
  AllWellTyped (cons k ks) = IsWellTyped k × AllWellTyped ks
