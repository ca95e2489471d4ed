-- ===== src/Memory/PurgeIndexes.antt =====
-- The engine's removal of index entries, crates/boa_idb_core/src/engine/ops_store.rs, on the in-memory
-- backend.
use indexed_db_boa.Base.{
  ℕ, ◌≡◌, refl, sym, ap, ◌∙◌, subst, Bool, false, not, ◌&&◌, List, [], ◌∷◌, any, ok, err, ◌==◌,
  if◌then◌else◌, arith, Bool-cases, inl, inr,
}
use indexed_db_boa.Base.Lex.{bytes_ord, store_ord}
use indexed_db_boa.Base.Map.{same}
use indexed_db_boa.Base.Sorted.{Sorted}
use indexed_db_boa.Backend.{IndexMeta}
use indexed_db_boa.Engine.Store.{delete_by_primary, purge_indexes, purge_keys}
use indexed_db_boa.Memory.{
  record_ord, index_ord, StorageState, MemoryTxn, check_readwrite, index_entry_exists,
}
use indexed_db_boa.Memory.Index.{index_delete_by_primary}
use indexed_db_boa.Memory.Primary.{
  Keeps, Keeps-trans, Keeps-refl, Keeps-check_readwrite, has_key, index_delete_by_primary-exists,
}
use indexed_db_boa.Memory.Traits.{memory_txn}

-- Whether the engine keeps an index: it is listed and not deleted.
abbrev pub keeps_index : List IndexMeta → ℕ → Bool
keeps_index indexes j = any (λ i. not i.deleted && (i.id == j)) indexes

module _ (state : StorageState) where
  -- After the deletion of the entries that a test of the index and the primary key picks.
  abbrev Purged : (ℕ → List ℕ → Bool) → MemoryTxn → MemoryTxn → Type 0
  Purged f t u =
      Keeps t u
      × ((j : ℕ) (ik qk : List ℕ)
          → index_entry_exists state u.pending (j, (ik, qk))
            ≡ (if f j qk then false else index_entry_exists state t.pending (j, (ik, qk))))

  purge_indexes-Purged :
      (pk : List ℕ) (indexes : List IndexMeta) (t : MemoryTxn)
      → Sorted t.pending.index_entries
      → check_readwrite t ≡ ok tt
      → let (u, r) = purge_indexes (memory_txn state) pk indexes t in
        (r ≡ ok tt) × Purged (λ j qk. keeps_index indexes j && same pk qk) t u
  unfolding purge_indexes delete_by_primary
  purge_indexes-Purged pk [] t s h = (refl, (Keeps-refl t, λ j ik qk. refl))
  purge_indexes-Purged pk (index ∷ more) t s h = elim (Bool-cases index.deleted) [
    | inl e ↦
        let (q, (k, x)) = purge_indexes-Purged pk more t s h in rw e (q, (k, λ j ik qk. x j ik qk))
    | inr e ↦
        let (r, k, x) = index_delete_by_primary-exists state t index.id pk s h in
        let u = (index_delete_by_primary state t index.id pk).0 in
        let (q, (l, y)) =
          purge_indexes-Purged pk more u (k.keeps_order s) (Keeps-check_readwrite t u k ∙ h) in
        rw (e, r) (q, (Keeps-trans t u _ k l, λ j ik qk. y j ik qk ∙ ground (arith, x j ik qk)))
  ]

  purge_keys-next :
      (pk : List ℕ) (pks : List (List ℕ)) (indexes : List IndexMeta) (t : MemoryTxn)
      → (purge_indexes (memory_txn state) pk indexes t).1 ≡ ok tt
      → purge_keys (memory_txn state) indexes (pk ∷ pks) t
        ≡ purge_keys
            (memory_txn state)
            indexes
            pks
            (purge_indexes (memory_txn state) pk indexes t).0
  unfolding purge_keys
  purge_keys-next pk pks indexes t r =
      let u = (purge_indexes (memory_txn state) pk indexes t).0 in
      ap (λ x. elim x [ err e ↦ (u, err e) | ok d ↦ purge_keys (memory_txn state) indexes pks u ]) r

  pub purge_keys-Purged :
      (indexes : List IndexMeta) (pks : List (List ℕ)) (t : MemoryTxn)
      → Sorted t.pending.index_entries
      → check_readwrite t ≡ ok tt
      → let (u, r) = purge_keys (memory_txn state) indexes pks t in
        (r ≡ ok tt) × Purged (λ j qk. keeps_index indexes j && has_key pks qk) t u
  unfolding purge_keys
  purge_keys-Purged indexes [] t s h = (refl, (Keeps-refl t, λ j ik qk. ground arith))
  purge_keys-Purged indexes (pk ∷ pks) t s h =
      let (r, (k, x)) = purge_indexes-Purged pk indexes t s h in
      let u = (purge_indexes (memory_txn state) pk indexes t).0 in
      let (q, (l, y)) =
        purge_keys-Purged indexes pks u (k.keeps_order s) (Keeps-check_readwrite t u k ∙ h) in
      subst
        (λ z. (z.1 ≡ ok tt) × Purged (λ j qk. keeps_index indexes j && has_key (pk ∷ pks) qk) t z.0)
        (sym (purge_keys-next pk pks indexes t r))
        (q, (Keeps-trans t u _ k l, λ j ik qk. y j ik qk ∙ ground (arith, x j ik qk)))
