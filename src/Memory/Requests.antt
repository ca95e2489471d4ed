-- ===== src/Memory/Requests.antt =====
-- Nested requests of crates/boa_idb_memory/src/txn.rs: a rollback goes back to the matching begin,
-- whatever was written in between and whichever inner requests were committed or rolled back.

use indexed_db_boa.Base.{ℕ, ◌≡◌, refl, List, [], ◌∷◌, drop, ok, err}
use indexed_db_boa.Engine.{TxnMode}
use indexed_db_boa.Backend.{internal, DatabaseMeta}
use indexed_db_boa.Memory.{StorageState, UndoOp, Pending, MemoryTxn, new, record_ord}
use indexed_db_boa.Memory.Txn.{log_all, begin_request, commit_request, rollback_request, undo_all}
use indexed_db_boa.Memory.Writes.{Call, Call-Writes}
use indexed_db_boa.Memory.Savepoints.{
  Writes-Logs, SamePending, SamePending-trans, undo_all-Same, undo_all-append,
}

-- The transactions that calls and requests lead to, with the pending data as it was at each begin
-- that is still open, the innermost first.
pub data Reach (state : StorageState) : MemoryTxn → List Pending → Type 0 where
  starts :
      {t : MemoryTxn} (mode : TxnMode) (scope : List ℕ) (meta : DatabaseMeta)
      → t ≡ new mode scope meta
      → Reach state t []
  begins :
      {t : MemoryTxn} {saved : List Pending}
      → Reach state t saved
      → Reach state (begin_request t).0 (t.pending ∷ saved)
  commits :
      {t : MemoryTxn} {saved : List Pending}
      → Reach state t saved
      → Reach state (commit_request t).0 (drop 1 saved)
  rolls_back :
      {t : MemoryTxn} {saved : List Pending}
      → Reach state t saved
      → Reach state (rollback_request t).0 (drop 1 saved)
  calls :
      {t u : MemoryTxn} {saved : List Pending}
      → Reach state t saved
      → Call state t u
      → Reach state u saved

-- Each level of the undo stack takes the pending data back to what was saved for it.
abbrev pub Saved : StorageState → Pending → List (List UndoOp) → List Pending → Type 0
Saved state p [] [] = Unit {0}
Saved state p [] (q ∷ saved) = ⊥
Saved state p (ops ∷ levels) [] = ⊥
Saved state p (ops ∷ levels) (q ∷ saved) =
    SamePending state (undo_all ops p) q × Saved state (undo_all ops p) levels saved

module _ (state : StorageState) where
  Saved-Same :
      (p q : Pending) (levels : List (List UndoOp)) (saved : List Pending)
      → SamePending state q p
      → Saved state p levels saved
      → Saved state q levels saved
  Saved-Same p q [] [] a h = tt
  Saved-Same p q [] (r ∷ saved) a h = h
  Saved-Same p q (ops ∷ levels) [] a h = h
  Saved-Same p q (ops ∷ levels) (r ∷ saved) a h =
      let b = undo_all-Same state ops q p a in
      (
        SamePending-trans state (undo_all ops q) (undo_all ops p) r b h.0,
        Saved-Same (undo_all ops p) (undo_all ops q) levels saved b h.1,
      )

  -- Logged operations keep what is saved.
  Logs-Saved :
      (p q : Pending) (levels : List (List UndoOp)) (saved : List Pending) (ops : List UndoOp)
      → SamePending state (undo_all ops q) p
      → Saved state p levels saved
      → Saved state q (log_all ops levels) saved
  unfolding log_all
  Logs-Saved p q [] [] ops a h = tt
  Logs-Saved p q [] (r ∷ saved) ops a h = h
  Logs-Saved p q (level ∷ levels) [] ops a h = h
  Logs-Saved p q (level ∷ levels) (r ∷ saved) ops a h =
      rw (undo_all-append state level ops q)
        (Saved-Same p (undo_all ops q) (level ∷ levels) (r ∷ saved) a h)

  commit_request-Saved :
      (t : MemoryTxn) (levels : List (List UndoOp)) (saved : List Pending)
      → Saved state t.pending levels saved
      → let u = (commit_request (record t { undo_stack = levels })).0 in
        Saved state u.pending u.undo_stack (drop 1 saved)
  unfolding commit_request
  commit_request-Saved t [] [] h = tt
  commit_request-Saved t [] (q ∷ saved) h = absurd h
  commit_request-Saved t (ops ∷ levels) [] h = absurd h
  commit_request-Saved t (ops ∷ levels) (q ∷ saved) h =
      Logs-Saved (undo_all ops t.pending) t.pending levels saved ops
        (λ k. refl, λ k. refl, λ k. refl) h.1

  rollback_request-Saved :
      (t : MemoryTxn) (levels : List (List UndoOp)) (saved : List Pending)
      → Saved state t.pending levels saved
      → let u = (rollback_request (record t { undo_stack = levels })).0 in
        Saved state u.pending u.undo_stack (drop 1 saved)
  unfolding rollback_request
  rollback_request-Saved t [] [] h = tt
  rollback_request-Saved t [] (q ∷ saved) h = absurd h
  rollback_request-Saved t (ops ∷ levels) [] h = absurd h
  rollback_request-Saved t (ops ∷ levels) (q ∷ saved) h = h.1

  begin_request-Saved :
      (t : MemoryTxn) (saved : List Pending)
      → Saved state t.pending t.undo_stack saved
      → let u = (begin_request t).0 in Saved state u.pending u.undo_stack (t.pending ∷ saved)
  unfolding begin_request undo_all
  begin_request-Saved t saved h = ((λ k. refl, λ k. refl, λ k. refl), h)

  Reach-Saved :
      {t : MemoryTxn} {saved : List Pending}
      → Reach state t saved
      → Saved state t.pending t.undo_stack saved
  Reach-Saved {t} (starts mode scope meta e) = rw e (unfold new in tt)
  Reach-Saved (begins {t} {saved} r) = begin_request-Saved t saved (Reach-Saved r)
  Reach-Saved (commits {t} {saved} r) = commit_request-Saved t t.undo_stack saved (Reach-Saved r)
  Reach-Saved (rolls_back {t} {saved} r) =
      rollback_request-Saved t t.undo_stack saved (Reach-Saved r)
  Reach-Saved (calls {t} {u} {saved} r c) =
      let (ops, e, h) = Writes-Logs state (Call-Writes state c) in
      rw e (Logs-Saved t.pending u.pending t.undo_stack saved ops h (Reach-Saved r))

  restores :
      (t : MemoryTxn) (levels : List (List UndoOp)) (q : Pending) (saved : List Pending)
      → Saved state t.pending levels (q ∷ saved)
      → let (u, r) = rollback_request (record t { undo_stack = levels }) in
        (r ≡ ok tt) × SamePending state u.pending q
  unfolding rollback_request
  restores t [] q saved h = absurd h
  restores t (ops ∷ levels) q saved h = (refl, h.0)

  unmatched :
      (t : MemoryTxn) (levels : List (List UndoOp))
      → Saved state t.pending levels []
      → let s = record t { undo_stack = levels } in
        (rollback_request s ≡ (s, err internal)) × (commit_request s ≡ (s, err internal))
  unfolding rollback_request commit_request
  unmatched t [] h = (refl, refl)
  unmatched t (ops ∷ levels) h = absurd h

-- On a committed state that does not change meanwhile: after any writes, schema changes and nested
-- requests, `rollback_request` succeeds while a request is open, and leaves pending records, index
-- entries and key generators that every read sees as they were at the `begin_request` it matches.
pub rollback_restores :
    {state : StorageState} {t : MemoryTxn} {q : Pending} {saved : List Pending}
    → Reach state t (q ∷ saved)
    → let (u, r) = rollback_request t in (r ≡ ok tt) × SamePending state u.pending q
rollback_restores {state} {t} {q} {saved} r =
    restores state t t.undo_stack q saved (Reach-Saved state r)

-- On a committed state that does not change meanwhile: when as many requests have ended as have
-- begun, another rollback or commit of a request is an internal error and changes nothing.
pub rollback_unmatched :
    {state : StorageState} {t : MemoryTxn}
    → Reach state t []
    → (rollback_request t ≡ (t, err internal)) × (commit_request t ≡ (t, err internal))
rollback_unmatched {state} {t} r = unmatched state t t.undo_stack (Reach-Saved state r)
