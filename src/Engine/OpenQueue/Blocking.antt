-- ===== src/Engine/OpenQueue/Blocking.antt =====
-- When engine/open_queue.rs lets a request wait, and that the wait ends.
use indexed_db_boa.Base.{ℕ, zero, suc, ◌-◌, ◌<◌, ◌≡◌, refl, ap, ◌∙◌, List, ◌∷◌, some, arith}
use indexed_db_boa.Engine.OpenQueue.{
  OpenQueue, OpenRequest, OpenRequestType, open_request, delete_request, OpenQueueState, idle,
  waiting_for_connections, running_upgrade, running_delete, OpenQueueAction, send_blocked,
  start_upgrade, start_delete, on_connection_closed, process_front, process_queue, process_next,
  on_all_connections_closed, target_version,
}

-- A request that has to be alone: a delete, or an open of a version above the current one.
abbrev pub IsExclusive : ℕ → OpenRequestType → Type 0
IsExclusive current (open_request requested) = current < target_version requested current
IsExclusive current delete_request = Unit {0}

-- What starts for an exclusive request.
abbrev pub started : OpenQueue → OpenRequestType → ℕ → OpenQueueAction
started q (open_request requested) id =
    start_upgrade id q.current_version (target_version requested q.current_version)
started q delete_request id = start_delete id

abbrev pub running_state : OpenRequestType → OpenQueueState
running_state (open_request requested) = running_upgrade
running_state delete_request = running_delete

-- `n` calls of `on_connection_closed`.
abbrev pub closed : ℕ → OpenQueue → OpenQueue
closed zero q = q
closed (suc n) q = closed n (on_connection_closed q)

closed-record :
    (n : ℕ) (q : OpenQueue)
    → closed n q ≡ record q { blocking_connections = q.blocking_connections - n }
unfolding on_connection_closed
closed-record zero q = λ i. record q { blocking_connections = zeroes i }
  where
    zeroes : q.blocking_connections ≡ q.blocking_connections - 0
    zeroes = omega arith
closed-record (suc n) q =
    closed-record n (on_connection_closed q) ∙ (λ i. record q { blocking_connections = less i })
  where
    less : q.blocking_connections - 1 - n ≡ q.blocking_connections - suc n
    less = omega arith

front_of :
    (q : OpenQueue) (r : OpenRequest) (rest : List OpenRequest)
    → q.state ≡ idle
    → q.queue ≡ r ∷ rest
    → process_next q ≡ process_front q r.request_type r.request_id rest
unfolding process_next process_queue
front_of q r rest i e = ground arith

blocked_front :
    (q : OpenQueue) (t : OpenRequestType) (id : ℕ) (rest : List OpenRequest)
    → 0 < q.blocking_connections
    → IsExclusive q.current_version t
    → process_front q t id rest
      ≡ (record q { state = waiting_for_connections }, some (send_blocked id))
unfolding process_front
blocked_front q (open_request requested) id rest b x = ground arith
blocked_front q delete_request id rest b x = ground arith

free_front :
    (q : OpenQueue) (t : OpenRequestType) (id : ℕ) (rest : List OpenRequest)
    → q.blocking_connections ≡ 0
    → IsExclusive q.current_version t
    → process_front q t id rest
      ≡ (record q { state = running_state t; queue = rest }, some (started q t id))
unfolding process_front
free_front q (open_request requested) id rest b x = ground arith
free_front q delete_request id rest b x = ground arith

wait_ends :
    (q : OpenQueue)
    → q.state ≡ waiting_for_connections
    → q.blocking_connections ≡ 0
    → on_all_connections_closed q ≡ process_next (record q { state = idle })
unfolding on_all_connections_closed
wait_ends q e b = rw (e, on_all_connections_closed, b)

-- An exclusive request at the head of an idle queue that open connections block gets a blocked event
-- and stays at the head; when as many connections have closed, `on_all_connections_closed` starts
-- that same request, and the queue moves on behind it.
pub blocked_starts :
    (q : OpenQueue) (r : OpenRequest) (rest : List OpenRequest)
    → q.state ≡ idle
    → q.queue ≡ r ∷ rest
    → 0 < q.blocking_connections
    → IsExclusive q.current_version r.request_type
    → let (p, a) = process_next q in
      let (t, b) = on_all_connections_closed (closed q.blocking_connections p) in
      (a ≡ some (send_blocked r.request_id))
      × (p.queue ≡ r ∷ rest)
      × (b ≡ some (started q r.request_type r.request_id))
      × (t.queue ≡ rest)
      × (t.state ≡ running_state r.request_type)
blocked_starts q r rest i e b x =
    let first : process_next q
        ≡ (record q { state = waiting_for_connections }, some (send_blocked r.request_id)) =
      front_of q r rest i e ∙ blocked_front q r.request_type r.request_id rest b x in
    let none_left : q.blocking_connections - q.blocking_connections ≡ 0 = omega arith in
    let last : on_all_connections_closed
          (closed q.blocking_connections (record q { state = waiting_for_connections }))
        ≡ (
          record q {
            state = running_state r.request_type;
            queue = rest;
            blocking_connections = q.blocking_connections - q.blocking_connections;
          },
          some (started q r.request_type r.request_id),
        ) =
      ap on_all_connections_closed
        (closed-record q.blocking_connections (record q { state = waiting_for_connections }))
      ∙ wait_ends
          (record q {
            state = waiting_for_connections;
            blocking_connections = q.blocking_connections - q.blocking_connections;
          })
          refl none_left
      ∙ front_of
          (record q {
            state = idle;
            blocking_connections = q.blocking_connections - q.blocking_connections;
          })
          r rest refl e
      ∙ free_front
          (record q {
            state = idle;
            blocking_connections = q.blocking_connections - q.blocking_connections;
          })
          r.request_type r.request_id rest none_left x in
    rw (first, last) (refl, e, refl, refl, refl)
