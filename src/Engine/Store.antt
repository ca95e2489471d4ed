-- ===== src/Engine/Store.antt =====
-- The deletions of crates/boa_idb_core/src/engine/ops_store.rs, with ops_index.rs, over the interface of
-- a backend: the engine keeps the indexes of the records that it has a backend delete.
use indexed_db_boa.Base.{
  ℕ, zero, suc, Bool, true, false, List, [], ◌∷◌, Option, none, some, Result, ok, err,
  if◌then◌else◌,
}
use indexed_db_boa.Backend.{StoreMeta, IndexMeta, store_source, BackendError}
use indexed_db_boa.Backend.Traits.{next, to_first, BackendTxn}
use indexed_db_boa.Engine.{IdbError}
use indexed_db_boa.Key.Range.{EncodedRange, all}

unfoldable pub backend_err : BackendError → IdbError
backend_err BackendError.constraint = IdbError.constraint
backend_err e = IdbError.data_error

-- `map_err` of the index operations other than `put`.
abbrev pub index_err : Result BackendError (Unit {0}) → Result IdbError (Unit {0})
index_err (ok u) = ok u
index_err (err e) = err IdbError.data_error

module _ {T C : Type 0} (b : BackendTxn T C) where
  -- The loop of `collect_range_keys` after a seek or a step, on fuel; none when it is short.
  unfoldable pub collect_keys :
      ℕ → T → Option (C × Result BackendError Bool) → Option (Result IdbError (List (List ℕ)))
  collect_keys zero t r = none
  collect_keys (suc fuel) t r = elim r [
    | none ↦ none
    | some (c, err e) ↦ some (err (backend_err e))
    | some (c, ok false) ↦ some (ok [])
    | some (c, ok true) ↦ elim (collect_keys fuel t (b.step t c 1)) [
      | none ↦ none
      | some (err e) ↦ some (err e)
      | some (ok keys) ↦ some (ok (b.current_key c ∷ keys))
    ]
  ]

  unfoldable pub collect_range_keys :
      ℕ → T → ℕ → EncodedRange → Option (Result IdbError (List (List ℕ)))
  collect_range_keys fuel t store range = elim (b.scan t (store_source store) range next true) [
    | err e ↦ some (err (backend_err e))
    | ok c ↦ collect_keys fuel t (b.seek t c to_first)
  ]

  unfoldable pub delete_by_primary : T → ℕ → List ℕ → T × Result IdbError (Unit {0})
  delete_by_primary t index pkey =
      let (u, r) = b.index_delete_by_primary t index pkey in (u, index_err r)

  -- The loops over the indexes and over the keys.
  unfoldable pub purge_indexes : List ℕ → List IndexMeta → T → T × Result IdbError (Unit {0})
  purge_indexes pkey [] t = (t, ok tt)
  purge_indexes pkey (index ∷ more) t =
      if index.deleted
      then purge_indexes pkey more t
      else let (u, r) = delete_by_primary t index.id pkey in
        elim r [ err e ↦ (u, err e) | ok d ↦ purge_indexes pkey more u ]

  unfoldable pub purge_keys : List IndexMeta → List (List ℕ) → T → T × Result IdbError (Unit {0})
  purge_keys indexes [] t = (t, ok tt)
  purge_keys indexes (pkey ∷ more) t =
      let (u, r) = purge_indexes pkey indexes t in
      elim r [ err e ↦ (u, err e) | ok d ↦ purge_keys indexes more u ]

  -- What follows the backend's deletion.
  unfoldable pub purge_deleted {ℓ} :
      {A : Type ℓ}
      → List IndexMeta
      → List (List ℕ)
      → T × Result BackendError A
      → T × Result IdbError A
  purge_deleted indexes doomed (u, err e) = (u, err (backend_err e))
  purge_deleted indexes doomed (u, ok a) =
      let (v, q) = purge_keys indexes doomed u in elim q [ err e ↦ (v, err e) | ok d ↦ (v, ok a) ]

  unfoldable pub delete_records : ℕ → T → StoreMeta → EncodedRange → Option (T × Result IdbError ℕ)
  delete_records fuel t meta range = elim (collect_range_keys fuel t meta.id range) [
    | none ↦ none
    | some (err e) ↦ some (t, err e)
    | some (ok doomed) ↦ some (purge_deleted meta.indexes doomed (b.delete_range t meta.id range))
  ]

  unfoldable pub clear_store : ℕ → T → StoreMeta → Option (T × Result IdbError (Unit {0}))
  clear_store fuel t meta = elim (collect_range_keys fuel t meta.id all) [
    | none ↦ none
    | some (err e) ↦ some (t, err e)
    | some (ok doomed) ↦ some (purge_deleted meta.indexes doomed (b.clear t meta.id))
  ]
