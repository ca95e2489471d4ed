-- ===== src/Engine/Scheduler.antt =====
-- The transaction scheduler: crates/boa_idb_core/src/engine/scheduler.rs
pub mod Exclusion
pub mod Fairness
mod Tests
use mathlib.Core.Option
use indexed_db_boa.Base.{
  ℕ, Bool, true, false, not, ◌&&◌, ◌||◌, List, [], ◌∷◌, ◌++◌, Option, none, some, any, retain,
  length, ◌==◌, if◌then◌else◌,
}
use indexed_db_boa.Engine.{TxnMode, is_version_change, is_read_only}

pub record TxnQueueItem : Type 0 where
  pub id : ℕ
  pub mode : TxnMode
  pub scope : List ℕ

pub record Scheduler : Type 0 where
  pub pending_queue : List TxnQueueItem
  pub running_txns : List TxnQueueItem

unfoldable pub new : Scheduler
new = record { pending_queue = []; running_txns = [] }

unfoldable pub enqueue : Scheduler → TxnQueueItem → Scheduler
enqueue s item = record s { pending_queue = s.pending_queue ++ item ∷ [] }

-- `scope.contains(&s)`
abbrev pub contains : List ℕ → ℕ → Bool
contains scope s = any (λ t. t == s) scope

unfoldable pub conflicts : TxnQueueItem → TxnQueueItem → Bool
conflicts a b =
    if is_version_change a.mode || is_version_change b.mode
    then true
    else if is_read_only a.mode && is_read_only b.mode
    then false
    else any (λ s. contains b.scope s) a.scope

-- The four loops; `earlier` is what stands before the candidate in the pending queue.
unfoldable pub can_start : List TxnQueueItem → List TxnQueueItem → TxnQueueItem → Bool
can_start earlier running candidate =
    if any (λ t. is_version_change t.mode) earlier
    then false
    else if any (λ t. is_version_change t.mode) running
    then false
    else if any (conflicts candidate) running
    then false
    else if any (conflicts candidate) earlier
    then false
    else true

-- The loop of `poll_ready`: `earlier` is `pending_queue[..i]`, the first argument behind it
-- `pending_queue[i..]`. A started item leaves the queue, and `i` stays.
unfoldable pub poll_loop :
    List TxnQueueItem → List TxnQueueItem → List TxnQueueItem → List ℕ → Scheduler × List ℕ
poll_loop earlier [] running ready =
    (record { pending_queue = earlier; running_txns = running }, ready)
poll_loop earlier (c ∷ rest) running ready = elim (can_start earlier running c) [
  | true ↦ poll_loop earlier rest (running ++ c ∷ []) (ready ++ c.id ∷ [])
  | false ↦ poll_loop (earlier ++ c ∷ []) rest running ready
]

unfoldable pub poll_ready : Scheduler → Scheduler × List ℕ
poll_ready s = poll_loop [] s.pending_queue s.running_txns []

abbrev pub drop_id : ℕ → List TxnQueueItem → List TxnQueueItem
drop_id id items = retain (λ t. not (t.id == id)) items

unfoldable pub on_txn_finished : Scheduler → ℕ → Scheduler
on_txn_finished s id = record s { running_txns = drop_id id s.running_txns }

-- `position(|t| t.id == id)` and `remove(pos)`
unfoldable pub remove_first : ℕ → List TxnQueueItem → Option (TxnQueueItem × List TxnQueueItem)
remove_first id [] = none
remove_first id (t ∷ ts) =
    if t.id == id
    then some (t, ts)
    else Option.map (λ (r : TxnQueueItem × List TxnQueueItem). (r.0, t ∷ r.1)) (remove_first id ts)

unfoldable pub requeue_unstarted : Scheduler → ℕ → Scheduler
requeue_unstarted s id = elim (remove_first id s.running_txns) [
  | none ↦ s
  | some (item, others) ↦ record { pending_queue = item ∷ s.pending_queue; running_txns = others }
]

unfoldable pub forget : Scheduler → ℕ → Scheduler
forget s id = record {
  pending_queue = drop_id id s.pending_queue;
  running_txns = drop_id id s.running_txns;
}

unfoldable pub pending_count : Scheduler → ℕ
pending_count s = length s.pending_queue

unfoldable pub running_count : Scheduler → ℕ
running_count s = length s.running_txns
