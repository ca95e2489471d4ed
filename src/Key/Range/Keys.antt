-- ===== src/Key/Range/Keys.antt =====
-- What the byte ranges of key/range.rs mean for the keys that key/encode.rs encodes.
use indexed_db_boa.Base.{◌≡◌, ◌↔◌, Bool, true, false, not, ◌&&◌, List, [], ℕ, ok, arith}
use indexed_db_boa.Base.Order.{Ordering, cmp_slice}
use indexed_db_boa.Key.{Key, IsWellTyped, LimitConfig}
use indexed_db_boa.Key.Compare.{compare_keys}
use indexed_db_boa.Key.Encode.{encode_key}
use indexed_db_boa.Key.Order.{encode_key-order}
use indexed_db_boa.Key.Range.{contains, bound, only}

-- On which side of a bound a comparison with it lies.
abbrev pub above : Bool → Ordering → Bool
above open_end Ordering.lt = false
above open_end Ordering.eq = not open_end
above open_end Ordering.gt = true

abbrev pub below : Bool → Ordering → Bool
below open_end Ordering.lt = true
below open_end Ordering.eq = not open_end
below open_end Ordering.gt = false

contains-bound-cmp :
    (z x y : List ℕ) (lo uo : Bool)
    → contains (bound x lo y uo) z ≡ above lo (cmp_slice z x) && below uo (cmp_slice z y)
unfolding contains bound
contains-bound-cmp z x y lo uo = ground arith

contains-only-cmp :
    (z x : List ℕ)
    → contains (only x) z ≡ above false (cmp_slice z x) && below false (cmp_slice z x)
unfolding contains only
contains-only-cmp z x = ground arith

module _ (k l u : Key) (limits : LimitConfig) (z x y : List ℕ) (tk : IsWellTyped k)
    (tl : IsWellTyped l) (tu : IsWellTyped u) (ek : encode_key k [] limits ≡ (z, ok tt))
    (el : encode_key l [] limits ≡ (x, ok tt)) (eu : encode_key u [] limits ≡ (y, ok tt)) where
  -- The range between the encodings of two keys contains the encoding of a third just when that key
  -- lies between the two in the key order, an open end excluded; all three are accepted by
  -- `encode_key`.
  pub contains-bound :
      (lo uo : Bool)
      → contains (bound x lo y uo) z ≡ above lo (compare_keys k l) && below uo (compare_keys k u)
  contains-bound lo uo =
      rw
        (
          ← encode_key-order k l limits z x tk tl ek el,
          ← encode_key-order k u limits z y tk tu ek eu,
        )
        (contains-bound-cmp z x y lo uo)

module _ (k l : Key) (limits : LimitConfig) (z x : List ℕ) (tk : IsWellTyped k) (tl : IsWellTyped l)
    (ek : encode_key k [] limits ≡ (z, ok tt)) (el : encode_key l [] limits ≡ (x, ok tt)) where
  only_cases : (o : Ordering) → ((above false o && below false o) ≡ true) ↔ (o ≡ Ordering.eq)
  only_cases Ordering.lt = ground arith
  only_cases Ordering.eq = ground arith
  only_cases Ordering.gt = ground arith

  -- The range of one key contains the encodings of exactly the keys that compare equal to it.
  pub contains-only : (contains (only x) z ≡ true) ↔ (compare_keys k l ≡ Ordering.eq)
  contains-only =
      rw (contains-only-cmp z x, ← encode_key-order k l limits z x tk tl ek el)
        (only_cases (cmp_slice z x))
