-- ===== src/Memory/Collect.antt =====
-- The keys that the engine collects before a deletion, crates/boa_idb_core/src/engine/ops_store.rs, on
-- the in-memory backend.
use indexed_db_boa.Base.{
  ℕ, zero, suc, ◌≡◌, refl, sym, ap, ◌∙◌, Bool, true, false, ◌&&◌, List, [], ◌∷◌, Option, none, some,
  Result, ok, err, arith, Option-cases, inl, inr,
}
use indexed_db_boa.Base.Lex.{bytes_ord, store_ord}
use indexed_db_boa.Base.Map.{Map, get, keys}
use indexed_db_boa.Base.Sorted.{Sorted}
use indexed_db_boa.Backend.{store_source, BackendError}
use indexed_db_boa.Backend.Traits.{next, to_first}
use indexed_db_boa.Engine.{IdbError}
use indexed_db_boa.Engine.Store.{backend_err, collect_keys, collect_range_keys}
use indexed_db_boa.Key.Range.{EncodedRange, contains}
use indexed_db_boa.Memory.{
  record_ord, index_ord, StorageState, MemoryTxn, is_some, check_scope, read_record,
}
use indexed_db_boa.Memory.Primary.{has_key}
use indexed_db_boa.Memory.Cursor.Kinds.{MemoryCursor}
use indexed_db_boa.Memory.Cursor.Calls.{
  open_cursor, open_store, scan, store_fuel, seek, step, current_key, current_value,
}
use indexed_db_boa.Memory.Cursor.Steps.{rows_from, walk, shown}
use indexed_db_boa.Memory.Cursor.Walk.{walk_rows}
use indexed_db_boa.Memory.Traits.{memory_txn}

has_key-keys :
    {V : Type 0} (m : Map (List ℕ) V) (j : List ℕ) → has_key (keys m) j ≡ is_some (get j m)
unfolding get
has_key-keys [] j = refl
has_key-keys ((k, v) ∷ m) j = ground (arith, has_key-keys m j)

is_some-shown : (key_only : Bool) (o : Option (List ℕ)) → is_some (shown key_only o) ≡ is_some o
is_some-shown key_only none = refl
is_some-shown key_only (some v) = refl

module _ (state : StorageState) (t : MemoryTxn) where
  collected :
      (out rows : Map (List ℕ) (Option (List ℕ)))
      → ◌≡◌ {A = Option (Map (List ℕ) (Option (List ℕ)))} (some out) (some rows)
      → ◌≡◌ {A = Option (Result IdbError (List (List ℕ)))}
          (some (ok (keys out)))
          (some (ok (keys rows)))
  collected out rows e = ap (λ o. elim o [ none ↦ none | some m ↦ some (ok (keys m)) ]) e

  rows_from-more :
      (fuel : ℕ) (c : MemoryCursor) (rest : Map (List ℕ) (Option (List ℕ)))
      → rows_from fuel state t.pending (step state t.pending c 1) ≡ some rest
      → rows_from (suc fuel) state t.pending (some (c, ok true))
        ≡ some ((current_key c, current_value c) ∷ rest)
  unfolding rows_from
  rows_from-more fuel c rest h = rw h refl

  rows_from-short :
      (fuel : ℕ) (c : MemoryCursor)
      → rows_from fuel state t.pending (step state t.pending c 1) ≡ none
      → rows_from (suc fuel) state t.pending (some (c, ok true)) ≡ none
  unfolding rows_from
  rows_from-short fuel c h = rw h refl

  collect_keys-more :
      (fuel : ℕ) (c : MemoryCursor) (ks : List (List ℕ))
      → collect_keys (memory_txn state) fuel t (step state t.pending c 1) ≡ some (ok ks)
      → collect_keys (memory_txn state) (suc fuel) t (some (c, ok true))
        ≡ some (ok (current_key c ∷ ks))
  unfolding collect_keys
  collect_keys-more fuel c ks h = rw h refl

  -- The keys that the engine collects are those of the rows that a client of the cursor sees.
  collect_keys-rows_from :
      (fuel : ℕ) (r : Option (MemoryCursor × Result BackendError Bool))
      (rows : Map (List ℕ) (Option (List ℕ)))
      → rows_from fuel state t.pending r ≡ some rows
      → collect_keys (memory_txn state) fuel t r ≡ some (ok (keys rows))
  unfolding collect_keys rows_from
  collect_keys-rows_from zero r rows e = cc
  collect_keys-rows_from (suc fuel) none rows e = cc
  collect_keys-rows_from (suc fuel) (some (c, err x)) rows e = cc
  collect_keys-rows_from (suc fuel) (some (c, ok false)) rows e = collected [] rows e
  collect_keys-rows_from (suc fuel) (some (c, ok true)) rows e =
      let x = step state t.pending c 1 in
      elim (Option-cases (rows_from fuel state t.pending x)) [
        | inl n ↦ let f = sym (rows_from-short fuel c n) ∙ e in cc
        | inr (rest, h) ↦
            collect_keys-more fuel c (keys rest) (collect_keys-rows_from fuel x rest h)
            ∙ collected ((current_key c, current_value c) ∷ rest) rows
                (sym (rows_from-more fuel c rest h) ∙ e)
      ]

  scan-open_store :
      (id : ℕ) (range : EncodedRange)
      → check_scope t id ≡ ok tt
      → scan t (store_source id) range next true ≡ ok (open_store id range next true)
  unfolding scan
  scan-open_store id range h = rw (scan, h) refl

  -- The engine collects the keys of the range that reads find.
  pub collects :
      (id : ℕ) (range : EncodedRange)
      → Sorted state.records
      → Sorted t.pending.records
      → check_scope t id ≡ ok tt
      → (ks : List (List ℕ)) × (collect_range_keys
            (memory_txn state)
            (store_fuel state t.pending)
            t
            id
            range
          ≡ some (ok ks))
        × ((j : List ℕ)
            → has_key ks j ≡ (contains range j && is_some (read_record state t.pending (id, j))))
  unfolding collect_range_keys scan walk open_store open_cursor
  collects id range s1 s2 h =
      let c = open_store id range next true in
      let (rows, e, s, r) = walk_rows state t.pending id c to_first s1 s2 refl refl in
      (
        keys rows,
        ap
              (λ r. elim r [
                | err e ↦ some (err (backend_err e))
                | ok c ↦
                    collect_keys (memory_txn state) (store_fuel state t.pending) t
                      (seek state t.pending c to_first)
              ])
              (scan-open_store id range h)
            ∙ collect_keys-rows_from (store_fuel state t.pending) (seek state t.pending c to_first)
                rows e,
        λ j. has_key-keys rows j ∙ ground (arith, r j),
      )
