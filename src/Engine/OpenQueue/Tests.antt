-- ===== src/Engine/OpenQueue/Tests.antt =====
-- Runs of the open queue, and its theorems at concrete states.
use indexed_db_boa.Base.{inl, ℕ, ◌<◌, ◌≡◌, refl, [], ◌∷◌, ◌++◌, none, some, arith}
use indexed_db_boa.Engine.OpenQueue.{
  OpenQueue, OpenRequest, open_request, delete_request, idle, running_upgrade, send_blocked,
  start_upgrade, new, enqueue_open, enqueue_delete, process_next, process_queue, process_front,
  on_all_connections_closed,
}
use indexed_db_boa.Engine.OpenQueue.Requests.{
  begin, opens, deletes, processes, answered, ids, Run-fifo,
}
use indexed_db_boa.Engine.OpenQueue.Blocking.{closed, blocked_starts}
use indexed_db_boa.Engine.OpenQueue.Running.{
  no_call, queues_delete, runs_next, start_upgrade_exclusive,
}

abbrev upgrade_request : OpenRequest
upgrade_request = record { request_type = open_request 3; request_id = 7 }

abbrev removal : OpenRequest
removal = record { request_type = delete_request; request_id = 8 }

-- Version 2 with two connections open; an open at version 3 and a delete wait.
abbrev busy : OpenQueue
busy = record {
  database_name = "db";
  current_version = 2;
  queue = upgrade_request ∷ removal ∷ [];
  state = idle;
  blocking_connections = 2;
}

abbrev free : OpenQueue
free = record busy { blocking_connections = 0 }

process_free : (process_next free).1 ≡ some (start_upgrade 7 2 3)
unfolding process_next process_queue process_front
process_free = refl

Run-fifo_example :
    answered (process_next (enqueue_delete (enqueue_open (new "db" 2) 7 3) 8)).1
      ++ ids (process_next (enqueue_delete (enqueue_open (new "db" 2) 7 3) 8)).0
    ≡ 7 ∷ 8 ∷ []
unfolding new
Run-fifo_example = Run-fifo (processes (deletes (opens (begin refl) 7 3) 8))

blocked_starts_example :
    let (p, a) = process_next busy in
    let (t, b) = on_all_connections_closed (closed 2 p) in
    (a ≡ some (send_blocked 7))
    × (p.queue ≡ upgrade_request ∷ removal ∷ [])
    × (b ≡ some (start_upgrade 7 2 3))
    × (t.queue ≡ removal ∷ [])
    × (t.state ≡ running_upgrade)
blocked_starts_example =
    blocked_starts busy upgrade_request (removal ∷ []) refl refl (omega arith) (omega arith)

-- The upgrade that `free` starts, after a request and a call that starts nothing.
abbrev upgrading : OpenQueue
upgrading = (process_next (enqueue_delete (process_next free).0 9)).0

start_upgrade_exclusive_example :
    (◌≡◌ {A = ℕ} 0 0)
    × (◌≡◌ {A = ℕ} 2 2)
    × (2 < 3)
    × (upgrading.current_version ≡ 2)
    × (process_next upgrading ≡ (upgrading, none))
    × (on_all_connections_closed upgrading ≡ (upgrading, none))
start_upgrade_exclusive_example =
    start_upgrade_exclusive free upgrading (process_next free) 7 2 3 (inl refl) process_free
      (runs_next (queues_delete no_call 9))
