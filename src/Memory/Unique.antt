-- ===== src/Memory/Unique.antt =====
-- The unique indexes of crates/boa_idb_memory/src/txn.rs: what the search before an insertion finds.
use indexed_db_boa.Base.{
  ℕ, ◌⊎◌, ◌≡◌, refl, sym, ap, ◌∙◌, Bool, true, false, not, ◌&&◌, ◌||◌, List, [], ◌∷◌, ◌++◌, Option,
  none, some, any, ◌==◌, if◌then◌else◌, arith, any-append, Bool-cases, Result-cases, inl, inr,
}
use indexed_db_boa.Base.Lex.{bytes_ord}
use indexed_db_boa.Base.Order.{Ordering, compare, cmp_slice, then_with}
use indexed_db_boa.Base.Map.{is_eq, Map, get, same, same_iff, get-insert}
use indexed_db_boa.Base.Sorted.{Sorted, Above-absent}
use indexed_db_boa.Memory.{
  IndexKey, index_ord, StorageState, Pending, MemoryTxn, is_some, check_readwrite,
  index_entry_exists,
}
use indexed_db_boa.Memory.Requests.{Reach}
use indexed_db_boa.Memory.Commit.{Reach-Sorted}
use indexed_db_boa.Memory.Txn.{write_index}
use indexed_db_boa.Memory.Index.{
  is_live, committed_entries, add_pending_entries, find_index_entries, is_empty, index_put,
}

-- Whether a list of found entries has a primary key.
abbrev pub has_entry : List (List ℕ × Bool) → List ℕ → Bool
has_entry results pk = any (λ r. same r.0 pk) results

abbrev pub is_true : Option Bool → Bool
is_true none = false
is_true (some b) = b

is_eq-then_with :
    (a b c : Ordering) → is_eq (then_with a (then_with b c)) ≡ (is_eq a && is_eq b && is_eq c)
is_eq-then_with Ordering.lt b c = refl
is_eq-then_with Ordering.gt b c = refl
is_eq-then_with Ordering.eq Ordering.lt c = refl
is_eq-then_with Ordering.eq Ordering.eq c = refl
is_eq-then_with Ordering.eq Ordering.gt c = refl

pub same_key :
    (i j : ℕ) (ik jk pk qk : List ℕ)
    → same {K = IndexKey} (i, (ik, pk)) (j, (jk, qk)) ≡ ((i == j) && same ik jk && same pk qk)
same_key i j ik jk pk qk = is_eq-then_with (compare i j) (cmp_slice ik jk) (cmp_slice pk qk)

committed_entries-has :
    (p : Pending) (index : ℕ) (ik pk : List ℕ) (m : Map IndexKey (Unit {0}))
    → has_entry (committed_entries p index ik m) pk
      ≡ (is_some (get (index, (ik, pk)) m) && is_live p (index, (ik, pk)))
unfolding committed_entries get
committed_entries-has p index ik pk [] = refl
committed_entries-has p index ik pk (((i, (jk, qk)), u) ∷ m) =
    let IH = committed_entries-has p index ik pk m in
    let k = same_key i index jk ik qk pk in
    elim (Bool-cases (same {K = IndexKey} (i, (jk, qk)) (index, (ik, pk)))) [
      | inl e ↦
          let f = (same_iff {K = IndexKey} (i, (jk, qk)) (index, (ik, pk))).0 e in
          ground (arith, e, k, IH, ap (λ q. is_live p (index, q.1)) f)
      | inr e ↦ ground (arith, e, k, IH)
    ]

add_pending_entries-has :
    (index : ℕ) (ik pk : List ℕ) (m : Map IndexKey Bool) (results : List (List ℕ × Bool))
    → Sorted m
    → has_entry (add_pending_entries index ik m results) pk
      ≡ (has_entry results pk || is_true (get (index, (ik, pk)) m))
unfolding add_pending_entries get
add_pending_entries-has index ik pk [] results h = ground arith
add_pending_entries-has index ik pk (((i, (jk, qk)), existed) ∷ m) results h =
    let k = same_key i index jk ik qk pk in
    let next =
      if (i == index) && same jk ik && existed && not (has_entry results qk)
      then results ++ (qk, true) ∷ []
      else results in
    let IH = add_pending_entries-has index ik pk m next h.1 in
    let a = any-append (λ (r : List ℕ × Bool). same r.0 pk) results ((qk, true) ∷ []) in
    elim (Bool-cases (same {K = IndexKey} (i, (jk, qk)) (index, (ik, pk)))) [
      | inl e ↦
          let f = (same_iff {K = IndexKey} (i, (jk, qk)) (index, (ik, pk))).0 e in
          ground (
            arith,
            e,
            k,
            IH,
            a,
            Above-absent (i, (jk, qk)) (index, (ik, pk)) m h.0 e,
            ap (λ (q : IndexKey). has_entry results q.1.1) f,
          )
      | inr e ↦ ground (arith, e, k, IH, a)
    ]

-- In pending entries with distinct keys in order: the search for an index key finds a primary key
-- just when that entry is pending as present, or committed and not pending as deleted.
pub find_index_entries_exact :
    (state : StorageState) (p : Pending) (index : ℕ) (ik pk : List ℕ)
    → Sorted p.index_entries
    → has_entry (find_index_entries state p index ik) pk
      ≡ index_entry_exists state p (index, (ik, pk))
unfolding find_index_entries index_entry_exists is_live
find_index_entries_exact state p index ik pk h =
    add_pending_entries-has index ik pk p.index_entries
      (committed_entries p index ik state.index_entries) h
    ∙ ground (arith, committed_entries-has p index ik pk state.index_entries)

-- No two primary keys stand under one key of the index.
abbrev pub IsUnique : StorageState → Pending → ℕ → Type 0
IsUnique state p index =
    (ik pk qk : List ℕ)
    → index_entry_exists state p (index, (ik, pk)) ≡ true
    → index_entry_exists state p (index, (ik, qk)) ≡ true
    → pk ≡ qk

module _ (state : StorageState) (t : MemoryTxn) (index : ℕ) where
  none_found :
      (ik pk : List ℕ)
      → Sorted t.pending.index_entries
      → is_empty (find_index_entries state t.pending index ik) ≡ true
      → index_entry_exists state t.pending (index, (ik, pk)) ≡ false
  none_found ik pk s h = sym (find_index_entries_exact state t.pending index ik pk s) ∙ go _ h
    where
      go : (results : List (List ℕ × Bool)) → is_empty results ≡ true → has_entry results pk ≡ false
      go [] h = refl
      go (r ∷ results) h = cc

  pub write_index-exists :
      (key k : IndexKey) (existed : Bool)
      → index_entry_exists state (write_index key existed t).pending k
        ≡ (if same key k then existed else index_entry_exists state t.pending k)
  unfolding write_index index_entry_exists
  write_index-exists key k existed =
      ground (arith, get-insert k key existed t.pending.index_entries)

  -- An entry under the key that was inserted is the inserted one.
  live_same :
      (ik pk y : List ℕ)
      → Sorted t.pending.index_entries
      → IsUnique state t.pending index
      → (not (index_entry_exists state t.pending (index, (ik, pk)))
          && not (is_empty (find_index_entries state t.pending index ik)))
        ≡ false
      → index_entry_exists state t.pending (index, (ik, y)) ≡ true
      → pk ≡ y
  live_same ik pk y s h g ey =
      elim (Bool-cases (index_entry_exists state t.pending (index, (ik, pk)))) [
        | inl e ↦ h ik pk y e ey
        | inr e ↦ absurd (ground (arith, none_found ik y s (ground arith)))
      ]

  -- What an entry that is live after the insertion is.
  live_after :
      (ik pk jk y : List ℕ)
      → index_entry_exists state (write_index (index, (ik, pk)) true t).pending (index, (jk, y))
        ≡ true
      → ((ik ≡ jk) × (pk ≡ y)) ⊎ (index_entry_exists state t.pending (index, (jk, y)) ≡ true)
  live_after ik pk jk y h =
      let w = write_index-exists (index, (ik, pk)) (index, (jk, y)) true in
      elim (Bool-cases (same {K = IndexKey} (index, (ik, pk)) (index, (jk, y)))) [
        | inl e ↦
            let f = (same_iff {K = IndexKey} (index, (ik, pk)) (index, (jk, y))).0 e in
            inl (ap (λ (q : IndexKey). q.1.0) f, ap (λ (q : IndexKey). q.1.1) f)
        | inr e ↦ inr (ground (arith, e, w))
      ]

  write_index-IsUnique :
      (ik pk : List ℕ)
      → Sorted t.pending.index_entries
      → IsUnique state t.pending index
      → (not (index_entry_exists state t.pending (index, (ik, pk)))
          && not (is_empty (find_index_entries state t.pending index ik)))
        ≡ false
      → IsUnique state (write_index (index, (ik, pk)) true t).pending index
  write_index-IsUnique ik pk s h g jk x y ex ey = elim (live_after ik pk jk x ex) [
    | inl (a, b) ↦ elim (live_after ik pk jk y ey) [
      | inl (c, d) ↦ sym b ∙ d
      | inr c ↦
          sym b
          ∙ live_same ik pk y s h g
              (ap (λ k. index_entry_exists state t.pending (index, (k, y))) a ∙ c)
    ]
    | inr a ↦ elim (live_after ik pk jk y ey) [
      | inl (c, d) ↦
          sym (
            live_same ik pk x s h g
              (ap (λ k. index_entry_exists state t.pending (index, (k, x))) c ∙ a))
          ∙ d
      | inr c ↦ h jk x y a c
    ]
  ]

-- On a fixed committed state: if in a transaction no index key of a unique index has two primary
-- keys, then neither has after an `index_put` on that index, whatever its result; the transaction is
-- one that calls and requests lead to.
pub index_put-IsUnique :
    {state : StorageState} {t : MemoryTxn} {saved : List Pending}
    → Reach state t saved
    → (index : ℕ) (ik pk : List ℕ) → IsUnique state t.pending index
    → IsUnique state (index_put state t index ik pk true).0.pending index
unfolding index_put
index_put-IsUnique {state} {t} r index ik pk h = elim (Result-cases (check_readwrite t)) [
  | inr (e, f) ↦ rw (f, index_put) h
  | inl (u, f) ↦
      rw (f, index_put)
        (elim (Bool-cases (
          not (index_entry_exists state t.pending (index, (ik, pk)))
          && not (is_empty (find_index_entries state t.pending index ik)))) [
            | inl g ↦ rw g h
            | inr g ↦ rw g (write_index-IsUnique state t index ik pk (Reach-Sorted r).1 h g)
          ])
]
