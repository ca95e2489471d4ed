-- ===== src/Engine/OpenQueue/Running.antt =====
-- What happens in engine/open_queue.rs while an upgrade runs.
use indexed_db_boa.Base.{ℕ, ◌<◌, ◌≡◌, ◌⊎◌, inl, inr, sym, subst, ap, ◌∙◌, Option, none, some, arith}
use indexed_db_boa.Engine.OpenQueue.{
  OpenQueue, running_upgrade, OpenQueueAction, start_upgrade, on_connection_closed, process_front,
  process_queue, process_next, on_all_connections_closed, enqueue_open, enqueue_delete,
  set_blocking_connections,
}

-- The queue `q` after any calls but `on_upgrade_complete`, `on_delete_complete` and
-- `on_operation_failed`, which end what runs.
pub data Meanwhile (q : OpenQueue) : OpenQueue → Type 0 where
  no_call : Meanwhile q q
  queues_open :
      {u : OpenQueue}
      → Meanwhile q u
      → (id requested : ℕ) → Meanwhile q (enqueue_open u id requested)
  queues_delete : {u : OpenQueue} → Meanwhile q u → (id : ℕ) → Meanwhile q (enqueue_delete u id)
  sets_blocking :
      {u : OpenQueue} → Meanwhile q u → (count : ℕ) → Meanwhile q (set_blocking_connections u count)
  closes_one : {u : OpenQueue} → Meanwhile q u → Meanwhile q (on_connection_closed u)
  runs_next : {u : OpenQueue} → Meanwhile q u → Meanwhile q (process_next u).0
  runs_all_closed : {u : OpenQueue} → Meanwhile q u → Meanwhile q (on_all_connections_closed u).0

-- An upgrade from version `v` runs.
abbrev Upgrading : ℕ → OpenQueue → Type 0
Upgrading v u = (u.state ≡ running_upgrade) × (u.current_version ≡ v)

busy :
    (u : OpenQueue)
    → u.state ≡ running_upgrade
    → (process_next u ≡ (u, none)) × (on_all_connections_closed u ≡ (u, none))
unfolding process_next on_all_connections_closed
busy u e = ground arith

Meanwhile-Upgrading : {v : ℕ} {q u : OpenQueue} → Upgrading v q → Meanwhile q u → Upgrading v u
unfolding enqueue_open enqueue_delete set_blocking_connections on_connection_closed
Meanwhile-Upgrading h no_call = h
Meanwhile-Upgrading h (queues_open m id requested) = Meanwhile-Upgrading h m
Meanwhile-Upgrading h (queues_delete m id) = Meanwhile-Upgrading h m
Meanwhile-Upgrading h (sets_blocking m count) = Meanwhile-Upgrading h m
Meanwhile-Upgrading h (closes_one m) = Meanwhile-Upgrading h m
Meanwhile-Upgrading {v} h (runs_next {u} m) =
    let k = Meanwhile-Upgrading h m in subst (Upgrading v) (sym (ap (λ r. r.0) (busy u k.0).0)) k
Meanwhile-Upgrading {v} h (runs_all_closed {u} m) =
    let k = Meanwhile-Upgrading h m in subst (Upgrading v) (sym (ap (λ r. r.0) (busy u k.0).1)) k

-- What holds when a call on `q` gives the queue `p` and starts an upgrade.
abbrev StartsUpgrade : OpenQueue → OpenQueue → ℕ → ℕ → Type 0
StartsUpgrade q p old new_version =
    (q.blocking_connections ≡ 0) × (old ≡ q.current_version) × (old < new_version) × Upgrading old p

process_next_starts :
    (q : OpenQueue) (id old new_version : ℕ)
    → (process_next q).1 ≡ some (start_upgrade id old new_version)
    → StartsUpgrade q (process_next q).0 old new_version
unfolding process_next process_queue process_front
process_next_starts q id old new_version h = ground arith

on_all_connections_closed_starts :
    (q : OpenQueue) (id old new_version : ℕ)
    → (on_all_connections_closed q).1 ≡ some (start_upgrade id old new_version)
    → StartsUpgrade q (on_all_connections_closed q).0 old new_version
unfolding on_all_connections_closed process_next process_queue process_front
on_all_connections_closed_starts q id old new_version h = ground arith

-- An upgrade starts, by either of the two calls that start requests, only with no blocking connection
-- and from the current version to a higher one. After any further calls but `on_upgrade_complete`,
-- `on_delete_complete` and `on_operation_failed`, the current version is still that one, and both calls
-- start nothing and change nothing.
pub start_upgrade_exclusive :
    (q u : OpenQueue) (r : OpenQueue × Option OpenQueueAction) (id old new_version : ℕ)
    → (process_next q ≡ r) ⊎ (on_all_connections_closed q ≡ r)
    → r.1 ≡ some (start_upgrade id old new_version)
    → Meanwhile r.0 u
    → (q.blocking_connections ≡ 0)
      × (old ≡ q.current_version)
      × (old < new_version)
      × (u.current_version ≡ old)
      × (process_next u ≡ (u, none))
      × (on_all_connections_closed u ≡ (u, none))
start_upgrade_exclusive q u r id old new_version c h m =
    let (b, v, l, k) : StartsUpgrade q r.0 old new_version = elim c [
      | inl e ↦
          subst (λ r. StartsUpgrade q r.0 old new_version) e
            (process_next_starts q id old new_version (ap (λ r. r.1) e ∙ h))
      | inr e ↦
          subst (λ r. StartsUpgrade q r.0 old new_version) e
            (on_all_connections_closed_starts q id old new_version (ap (λ r. r.1) e ∙ h))
    ] in
    let n = Meanwhile-Upgrading k m in let (f, g) = busy u n.0 in (b, v, l, n.1, f, g)
