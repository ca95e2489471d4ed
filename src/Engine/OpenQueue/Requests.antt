-- ===== src/Engine/OpenQueue/Requests.antt =====
-- engine/open_queue.rs answers every request once, in the order of arrival.
use mathlib.Core.List.{map, map-append}
use indexed_db_boa.Base.{
  ℕ, ◌≡◌, refl, ap, ◌∙◌, List, [], ◌∷◌, ◌++◌, append_assoc, Option, none, some, arith,
}
use indexed_db_boa.Engine.OpenQueue.{
  OpenQueue, OpenRequest, OpenRequestType, open_request, delete_request, idle, OpenQueueAction,
  open_connection, fail_open, send_blocked, start_upgrade, start_delete, enqueue_open,
  enqueue_delete, set_blocking_connections, on_connection_closed, process_front, process_queue,
  process_next, on_all_connections_closed, on_upgrade_complete, on_delete_complete,
  on_operation_failed,
}

-- The requests that an action answers for good: a blocked event answers none.
abbrev pub answered : Option OpenQueueAction → List ℕ
answered none = []
answered (some (open_connection id v)) = id ∷ []
answered (some (fail_open id e)) = id ∷ []
answered (some (send_blocked id)) = []
answered (some (start_upgrade id old new_version)) = id ∷ []
answered (some (start_delete id)) = id ∷ []

abbrev pub ids : OpenQueue → List ℕ
ids q = map (λ (r : OpenRequest). r.request_id) q.queue

-- A call answers a request only by taking it off the front of the queue.
process_front-ids :
    (q : OpenQueue) (t : OpenRequestType) (id : ℕ) (rest : List OpenRequest)
    → map (λ (r : OpenRequest). r.request_id) q.queue
      ≡ id ∷ map (λ (r : OpenRequest). r.request_id) rest
    → let (p, a) = process_front q t id rest in answered a ++ ids p ≡ ids q
unfolding process_front
process_front-ids q (open_request requested) id rest h = ground arith
process_front-ids q delete_request id rest h = ground arith

process_queue-ids :
    (q : OpenQueue) (requests : List OpenRequest)
    → q.queue ≡ requests
    → let (p, a) = process_queue q requests in answered a ++ ids p ≡ ids q
unfolding process_queue
process_queue-ids q [] e = refl
process_queue-ids q (r ∷ rest) e =
    process_front-ids q r.request_type r.request_id rest
      (ap (map (λ (r : OpenRequest). r.request_id)) e)

process_next-ids : (q : OpenQueue) → let (p, a) = process_next q in answered a ++ ids p ≡ ids q
unfolding process_next
process_next-ids q = ground (arith, process_queue-ids q q.queue refl)

on_all_connections_closed-ids :
    (q : OpenQueue) → let (p, a) = on_all_connections_closed q in answered a ++ ids p ≡ ids q
unfolding on_all_connections_closed
on_all_connections_closed-ids q = ground (arith, process_next-ids (record q { state = idle }))

-- A run of the queue: the calls that the driver makes, with the ids enqueued and answered so far.
pub data Run : OpenQueue → List ℕ → List ℕ → Type 0 where
  begin : {q : OpenQueue} → q.queue ≡ [] → Run q [] []
  opens :
      {q : OpenQueue} {asked done : List ℕ}
      → Run q asked done
      → (id requested : ℕ) → Run (enqueue_open q id requested) (asked ++ id ∷ []) done
  deletes :
      {q : OpenQueue} {asked done : List ℕ}
      → Run q asked done
      → (id : ℕ) → Run (enqueue_delete q id) (asked ++ id ∷ []) done
  processes :
      {q : OpenQueue} {asked done : List ℕ}
      → Run q asked done
      → Run (process_next q).0 asked (done ++ answered (process_next q).1)
  all_closed :
      {q : OpenQueue} {asked done : List ℕ}
      → Run q asked done
      → Run (on_all_connections_closed q).0 asked (done ++ answered (on_all_connections_closed q).1)
  counts :
      {q : OpenQueue} {asked done : List ℕ}
      → Run q asked done
      → (n : ℕ) → Run (set_blocking_connections q n) asked done
  closes :
      {q : OpenQueue} {asked done : List ℕ}
      → Run q asked done
      → Run (on_connection_closed q) asked done
  upgrades :
      {q : OpenQueue} {asked done : List ℕ}
      → Run q asked done
      → (v : ℕ) → Run (on_upgrade_complete q v) asked done
  removes :
      {q : OpenQueue} {asked done : List ℕ}
      → Run q asked done
      → Run (on_delete_complete q) asked done
  fails :
      {q : OpenQueue} {asked done : List ℕ}
      → Run q asked done
      → Run (on_operation_failed q) asked done

pushed :
    (done : List ℕ) (queue : List OpenRequest) (r : OpenRequest)
    → done ++ map (λ (r : OpenRequest). r.request_id) (queue ++ r ∷ [])
      ≡ (done ++ map (λ (r : OpenRequest). r.request_id) queue) ++ r.request_id ∷ []
pushed done queue r = rw (map-append, append_assoc)

-- In every run, the requests answered so far, followed by those still in the queue, are the requests
-- enqueued, in the order of arrival: none is dropped, answered twice or answered out of turn.
pub Run-fifo : {q : OpenQueue} {asked done : List ℕ} → Run q asked done → done ++ ids q ≡ asked
unfolding enqueue_open enqueue_delete set_blocking_connections on_connection_closed
    on_upgrade_complete on_delete_complete on_operation_failed
Run-fifo (begin e) = rw e
Run-fifo (opens {q = p} {done = d} r id requested) =
    pushed d p.queue (record { request_type = open_request requested; request_id = id })
    ∙ ap (λ l. l ++ id ∷ []) (Run-fifo r)
Run-fifo (deletes {q = p} {done = d} r id) =
    pushed d p.queue (record { request_type = delete_request; request_id = id })
    ∙ ap (λ l. l ++ id ∷ []) (Run-fifo r)
Run-fifo (processes {q = p} {done = d} r) =
    append_assoc d _ _ ∙ ap (◌++◌ d) (process_next-ids p) ∙ Run-fifo r
Run-fifo (all_closed {q = p} {done = d} r) =
    append_assoc d _ _ ∙ ap (◌++◌ d) (on_all_connections_closed-ids p) ∙ Run-fifo r
Run-fifo (counts r n) = Run-fifo r
Run-fifo (closes r) = Run-fifo r
Run-fifo (upgrades r v) = Run-fifo r
Run-fifo (removes r) = Run-fifo r
Run-fifo (fails r) = Run-fifo r
