-- ===== src/Memory/Primary.antt =====
-- The deletion of a primary key from an index, `index_delete_by_primary` of
-- crates/boa_idb_memory/src/txn.rs.
use indexed_db_boa.Base.{
  ℕ, ◌≡◌, refl, ap, ◌∙◌, Bool, false, not, ◌&&◌, ◌||◌, List, [], ◌∷◌, ◌++◌, any, ok, err, ◌==◌,
  if◌then◌else◌, arith, ==_iff, any-append, Bool-cases, inl, inr,
}
use indexed_db_boa.Base.Lex.{bytes_ord}
use indexed_db_boa.Base.Map.{Map, get, same, same_iff}
use indexed_db_boa.Base.Sorted.{Sorted, Above-absent, insert-Sorted}
use indexed_db_boa.Backend.{internal}
use indexed_db_boa.Engine.{is_read_only}
use indexed_db_boa.Memory.{
  IndexKey, index_ord, StorageState, Pending, MemoryTxn, is_some, check_readwrite,
  index_entry_exists,
}
use indexed_db_boa.Memory.Txn.{write_index}
use indexed_db_boa.Memory.Unique.{same_key, is_true, write_index-exists}
use indexed_db_boa.Memory.Index.{
  is_live, committed_by_primary, add_pending_by_primary, find_index_entries_by_primary,
  delete_entries, index_delete_by_primary,
}

-- Whether a list of index keys has one.
abbrev pub has_key : List (List ℕ) → List ℕ → Bool
has_key iks ik = any (λ r. same r ik) iks

committed_by_primary-has :
    (p : Pending) (index : ℕ) (ik pk : List ℕ) (m : Map IndexKey (Unit {0}))
    → has_key (committed_by_primary p index pk m) ik
      ≡ (is_some (get (index, (ik, pk)) m) && is_live p (index, (ik, pk)))
unfolding committed_by_primary get
committed_by_primary-has p index ik pk [] = refl
committed_by_primary-has p index ik pk (((i, (jk, qk)), u) ∷ m) =
    let IH = committed_by_primary-has p index ik pk m in
    let k = same_key i index jk ik qk pk in
    elim (Bool-cases (same {K = IndexKey} (i, (jk, qk)) (index, (ik, pk)))) [
      | inl e ↦
          let f = (same_iff {K = IndexKey} (i, (jk, qk)) (index, (ik, pk))).0 e in
          ground (arith, e, k, IH, ap (λ q. is_live p (index, q.1)) f)
      | inr e ↦ ground (arith, e, k, IH)
    ]

add_pending_by_primary-has :
    (index : ℕ) (ik pk : List ℕ) (m : Map IndexKey Bool) (results : List (List ℕ))
    → Sorted m
    → has_key (add_pending_by_primary index pk m results) ik
      ≡ (has_key results ik || is_true (get (index, (ik, pk)) m))
unfolding add_pending_by_primary get
add_pending_by_primary-has index ik pk [] results h = ground arith
add_pending_by_primary-has index ik pk (((i, (jk, qk)), existed) ∷ m) results h =
    let k = same_key i index jk ik qk pk in
    let next =
      if (i == index) && same qk pk && existed && not (has_key results jk)
      then results ++ jk ∷ []
      else results in
    let IH = add_pending_by_primary-has index ik pk m next h.1 in
    let a = any-append (λ (r : List ℕ). same r ik) results (jk ∷ []) in
    elim (Bool-cases (same {K = IndexKey} (i, (jk, qk)) (index, (ik, pk)))) [
      | inl e ↦
          let f = (same_iff {K = IndexKey} (i, (jk, qk)) (index, (ik, pk))).0 e in
          ground (
            arith,
            e,
            k,
            IH,
            a,
            Above-absent (i, (jk, qk)) (index, (ik, pk)) m h.0 e,
            ap (λ (q : IndexKey). has_key results q.1.0) f,
          )
      | inr e ↦ ground (arith, e, k, IH, a)
    ]

-- What the deletions of entries leave as it was.
pub record Keeps (t u : MemoryTxn) : Type 0 where
  pub keeps_mode : u.mode ≡ t.mode
  pub keeps_scope : u.scope ≡ t.scope
  pub keeps_records : u.pending.records ≡ t.pending.records
  pub keeps_order : Sorted t.pending.index_entries → Sorted u.pending.index_entries

pub Keeps-trans : (t u v : MemoryTxn) → Keeps t u → Keeps u v → Keeps t v
Keeps-trans t u v k l = record {
  keeps_mode = l.keeps_mode ∙ k.keeps_mode;
  keeps_scope = l.keeps_scope ∙ k.keeps_scope;
  keeps_records = l.keeps_records ∙ k.keeps_records;
  keeps_order = λ h. l.keeps_order (k.keeps_order h);
}

pub Keeps-refl : (t : MemoryTxn) → Keeps t t
Keeps-refl t = record {
  keeps_mode = refl;
  keeps_scope = refl;
  keeps_records = refl;
  keeps_order = λ h. h;
}

pub Keeps-check_readwrite : (t u : MemoryTxn) → Keeps t u → check_readwrite u ≡ check_readwrite t
unfolding check_readwrite
Keeps-check_readwrite t u k = ap (λ m. if is_read_only m then err internal else ok tt) k.keeps_mode

module _ (state : StorageState) where
  by_primary_exact :
      (p : Pending) (index : ℕ) (ik pk : List ℕ)
      → Sorted p.index_entries
      → has_key (find_index_entries_by_primary state p index pk) ik
        ≡ index_entry_exists state p (index, (ik, pk))
  unfolding find_index_entries_by_primary index_entry_exists is_live
  by_primary_exact p index ik pk h =
      add_pending_by_primary-has index ik pk p.index_entries
        (committed_by_primary p index pk state.index_entries) h
      ∙ ground (arith, committed_by_primary-has p index ik pk state.index_entries)

  delete_entries-exists :
      (index : ℕ) (pk : List ℕ) (iks : List (List ℕ)) (t : MemoryTxn) (k : IndexKey)
      → index_entry_exists state (delete_entries index pk iks t).pending k ≡ (
          if any (λ ik. same {K = IndexKey} (index, (ik, pk)) k) iks
          then false
          else index_entry_exists state t.pending k)
  unfolding delete_entries
  delete_entries-exists index pk [] t k = refl
  delete_entries-exists index pk (ik ∷ iks) t k = ground (
    arith,
    delete_entries-exists index pk iks (write_index (index, (ik, pk)) false t) k,
    write_index-exists state t index (index, (ik, pk)) k false,
  )

  delete_entries-Keeps :
      (index : ℕ) (pk : List ℕ) (iks : List (List ℕ)) (t : MemoryTxn)
      → Keeps t (delete_entries index pk iks t)
  unfolding delete_entries write_index
  delete_entries-Keeps index pk [] t = Keeps-refl t
  delete_entries-Keeps index pk (ik ∷ iks) t =
      let k = delete_entries-Keeps index pk iks (write_index (index, (ik, pk)) false t) in
      record {
        keeps_mode = k.keeps_mode;
        keeps_scope = k.keeps_scope;
        keeps_records = k.keeps_records;
        keeps_order =
            λ h. k.keeps_order (insert-Sorted (index, (ik, pk)) false t.pending.index_entries h);
      }

  any_entry :
      (index j : ℕ) (ik pk qk : List ℕ) (iks : List (List ℕ))
      → any (λ r. same {K = IndexKey} (index, (r, pk)) (j, (ik, qk))) iks
        ≡ ((index == j) && same pk qk && has_key iks ik)
  any_entry index j ik pk qk [] = ground arith
  any_entry index j ik pk qk (r ∷ iks) =
      ground (arith, same_key index j r ik pk qk, any_entry index j ik pk qk iks)

  after_purge :
      (t : MemoryTxn) (index : ℕ) (pk : List ℕ)
      → Sorted t.pending.index_entries
      → (j : ℕ) (ik qk : List ℕ)
      → (if any
            (λ r. same {K = IndexKey} (index, (r, pk)) (j, (ik, qk)))
            (find_index_entries_by_primary state t.pending index pk)
          then false
          else index_entry_exists state t.pending (j, (ik, qk)))
        ≡ (if (index == j) && same pk qk
            then false
            else index_entry_exists state t.pending (j, (ik, qk)))
  after_purge t index pk s j ik qk =
      let iks = find_index_entries_by_primary state t.pending index pk in
      let a = any_entry index j ik pk qk iks in
      elim (Bool-cases ((index == j) && same pk qk)) [
        | inl e ↦
            let f : index ≡ j = (==_iff index j).0 (ground arith) in
            let g : pk ≡ qk = (same_iff pk qk).0 (ground arith) in
            let x =
              by_primary_exact t.pending index ik pk s
              ∙ (λ i. index_entry_exists state t.pending (f i, (ik, g i))) in
            ground (arith, e, a, x)
        | inr e ↦ ground (arith, e, a)
      ]

  -- After the deletion of a primary key that meets its guard, the index has no entry of the key, and
  -- every other entry is as before.
  pub index_delete_by_primary-exists :
      (t : MemoryTxn) (index : ℕ) (pk : List ℕ)
      → Sorted t.pending.index_entries
      → check_readwrite t ≡ ok tt
      → let (u, r) = index_delete_by_primary state t index pk in
        (r ≡ ok tt)
        × Keeps t u
        × ((j : ℕ) (ik qk : List ℕ)
            → index_entry_exists state u.pending (j, (ik, qk)) ≡ (
                if (index == j) && same pk qk
                then false
                else index_entry_exists state t.pending (j, (ik, qk))))
  unfolding index_delete_by_primary
  index_delete_by_primary-exists t index pk s h =
      let iks = find_index_entries_by_primary state t.pending index pk in
      rw h (
        refl,
        delete_entries-Keeps index pk iks t,
        λ j ik qk.
            delete_entries-exists index pk iks t (j, (ik, qk)) ∙ after_purge t index pk s j ik qk,
      )
