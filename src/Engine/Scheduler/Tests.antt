-- ===== src/Engine/Scheduler/Tests.antt =====
-- Runs of the scheduler, and its theorems at concrete states.
use mathlib.Core.List.{map, Perm}
use indexed_db_boa.Base.{ℕ, ◌≡◌, refl, List, [], ◌∷◌, ◌++◌}
use indexed_db_boa.Engine.{read_only, read_write, version_change}
use indexed_db_boa.Engine.Scheduler.{
  TxnQueueItem, Scheduler, new, enqueue, conflicts, can_start, poll_loop, poll_ready,
}
use indexed_db_boa.Engine.Scheduler.Exclusion.{
  Exclusive, enqueues, polls, start, next, Reach-Exclusive,
}
use indexed_db_boa.Engine.Scheduler.Fairness.{
  poll_ready_no_overtaking, poll_ready-Starts, poll_ready_progress,
}

abbrev writer : TxnQueueItem
writer = record { id = 1; mode = read_write; scope = 10 ∷ [] }

abbrev reader : TxnQueueItem
reader = record { id = 2; mode = read_only; scope = 10 ∷ 11 ∷ [] }

abbrev other : TxnQueueItem
other = record { id = 3; mode = read_write; scope = 12 ∷ [] }

abbrev upgrade : TxnQueueItem
upgrade = record { id = 4; mode = version_change; scope = [] }

abbrev waiting : Scheduler
waiting = record { pending_queue = writer ∷ reader ∷ other ∷ []; running_txns = [] }

poll_waiting :
    poll_ready waiting
    ≡ (record { pending_queue = reader ∷ []; running_txns = writer ∷ other ∷ [] }, 1 ∷ 3 ∷ [])
unfolding poll_ready poll_loop can_start conflicts
poll_waiting = refl

Reach-Exclusive_example : Exclusive (poll_ready (enqueue (enqueue new writer) other)).0.running_txns
Reach-Exclusive_example =
    Reach-Exclusive (next (next (next (start refl) (enqueues writer)) (enqueues other)) polls)

poll_ready_no_overtaking_example :
    poll_ready
      (record { pending_queue = writer ∷ reader ∷ other ∷ upgrade ∷ []; running_txns = [] })
    ≡ (
      record { pending_queue = reader ∷ upgrade ∷ []; running_txns = writer ∷ other ∷ [] },
      1 ∷ 3 ∷ [],
    )
unfolding poll_ready poll_loop can_start conflicts
poll_ready_no_overtaking_example = poll_ready_no_overtaking waiting upgrade refl

poll_ready-Starts_example :
    let (t, ready) = poll_ready waiting in
    (started : List TxnQueueItem) × (t.running_txns ≡ [] ++ started)
    × (ready ≡ map (λ (i : TxnQueueItem). i.id) started)
    × Perm (t.pending_queue ++ started) (writer ∷ reader ∷ other ∷ [])
poll_ready-Starts_example = poll_ready-Starts waiting

poll_ready_progress_example : (ids : List ℕ) × ((poll_ready waiting).1 ≡ 1 ∷ ids)
poll_ready_progress_example = poll_ready_progress waiting writer (reader ∷ other ∷ []) refl refl
