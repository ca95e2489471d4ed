-- ===== src/Engine/OpenQueue.antt =====
-- The queue of open and delete requests of one database:
-- crates/boa_idb_core/src/engine/open_queue.rs. A method that takes `&mut self` returns the new queue.
pub mod Requests
pub mod Blocking
pub mod Running
mod Tests
use Prim.Native.String.{String}
use indexed_db_boa.Base.{
  ℕ, ◌-◌, ◌+◌, Bool, true, false, List, [], ◌∷◌, ◌++◌, Option, none, some, length, ltb, ◌==◌,
  if◌then◌else◌,
}
use indexed_db_boa.Base.Order.{Ordering, compare}
use indexed_db_boa.Engine.{IdbError, version}

pub data OpenRequestType : Type 0 where
  open_request : ℕ → OpenRequestType
  delete_request : OpenRequestType

pub record OpenRequest : Type 0 where
  pub request_type : OpenRequestType
  pub request_id : ℕ

pub data OpenQueueState : Type 0 where
  idle waiting_for_connections running_upgrade running_delete : OpenQueueState

pub record OpenQueue : Type 0 where
  pub database_name : String
  pub current_version : ℕ
  pub queue : List OpenRequest
  pub state : OpenQueueState
  pub blocking_connections : ℕ

pub data OpenQueueAction : Type 0 where
  open_connection : ℕ → ℕ → OpenQueueAction
  fail_open : ℕ → IdbError → OpenQueueAction
  send_blocked : ℕ → OpenQueueAction
  start_upgrade : ℕ → ℕ → ℕ → OpenQueueAction
  start_delete : ℕ → OpenQueueAction

unfoldable pub new : String → ℕ → OpenQueue
new name current = record {
  database_name = name;
  current_version = current;
  queue = [];
  state = idle;
  blocking_connections = 0;
}

unfoldable pub enqueue_open : OpenQueue → ℕ → ℕ → OpenQueue
enqueue_open q id requested = record q {
  queue = q.queue ++ (record { request_type = open_request requested; request_id = id }) ∷ [];
}

unfoldable pub enqueue_delete : OpenQueue → ℕ → OpenQueue
enqueue_delete q id = record q {
  queue = q.queue ++ (record { request_type = delete_request; request_id = id }) ∷ [];
}

unfoldable pub set_blocking_connections : OpenQueue → ℕ → OpenQueue
set_blocking_connections q count = record q { blocking_connections = count }

-- `saturating_sub(1)` is the subtraction of ℕ.
unfoldable pub on_connection_closed : OpenQueue → OpenQueue
on_connection_closed q = record q { blocking_connections = q.blocking_connections - 1 }

-- Version 0 of a request stands for the current version, and for 1 if there is no database yet.
abbrev pub target_version : ℕ → ℕ → ℕ
target_version requested current =
    if requested == 0 then (if current == 0 then 1 else current) else requested

-- The match on the type of the front request `r`, which `rest` follows.
unfoldable pub process_front :
    OpenQueue → OpenRequestType → ℕ → List OpenRequest → OpenQueue × Option OpenQueueAction
process_front q (open_request requested) id rest =
    let target = target_version requested q.current_version in
    elim (compare target q.current_version) [
      | Ordering.lt ↦ (record q { queue = rest }, some (fail_open id version))
      | Ordering.eq ↦ (record q { queue = rest }, some (open_connection id q.current_version))
      | Ordering.gt ↦
          if ltb 0 q.blocking_connections
          then (record q { state = waiting_for_connections }, some (send_blocked id))
          else (
            record q { state = running_upgrade; queue = rest },
            some (start_upgrade id q.current_version target),
          )
    ]
process_front q delete_request id rest =
    if ltb 0 q.blocking_connections
    then (record q { state = waiting_for_connections }, some (send_blocked id))
    else (record q { state = running_delete; queue = rest }, some (start_delete id))

unfoldable pub process_queue : OpenQueue → List OpenRequest → OpenQueue × Option OpenQueueAction
process_queue q [] = (q, none)
process_queue q (r ∷ rest) = process_front q r.request_type r.request_id rest

unfoldable pub process_next : OpenQueue → OpenQueue × Option OpenQueueAction
process_next q = elim q.state [
  | idle ↦ process_queue q q.queue
  | waiting_for_connections ↦ (q, none)
  | running_upgrade ↦ (q, none)
  | running_delete ↦ (q, none)
]

unfoldable pub on_all_connections_closed : OpenQueue → OpenQueue × Option OpenQueueAction
on_all_connections_closed q = elim q.state [
  | waiting_for_connections ↦
      if ltb 0 q.blocking_connections then (q, none) else process_next (record q { state = idle })
  | idle ↦ (q, none)
  | running_upgrade ↦ (q, none)
  | running_delete ↦ (q, none)
]

unfoldable pub on_upgrade_complete : OpenQueue → ℕ → OpenQueue
on_upgrade_complete q new_version = record q { current_version = new_version; state = idle }

unfoldable pub on_delete_complete : OpenQueue → OpenQueue
on_delete_complete q = record q { current_version = 0; state = idle }

unfoldable pub on_operation_failed : OpenQueue → OpenQueue
on_operation_failed q = record q { state = idle }

unfoldable pub pending_count : OpenQueue → ℕ
pending_count q = length q.queue
