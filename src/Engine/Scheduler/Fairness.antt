-- ===== src/Engine/Scheduler/Fairness.antt =====
-- In which order engine/scheduler.rs starts transactions, and that it starts all that may start.
use mathlib.Core.List.{map, Perm, perm_middle}
use mathlib.Core.List.Perm
use indexed_db_boa.Base.{
  ℕ, ◌≡◌, refl, sym, ◌∙◌, true, false, List, [], ◌∷◌, ◌++◌, any, any-append, append-nil,
  append_assoc, arith, Bool-cases, inl, inr,
}
use indexed_db_boa.Engine.{is_version_change}
use indexed_db_boa.Engine.Scheduler.{
  TxnQueueItem, Scheduler, conflicts, can_start, poll_loop, poll_ready,
}

-- The loop splits at any point of the queue.
poll_loop-append :
    (earlier front back running : List TxnQueueItem) (ready : List ℕ)
    → let mid = poll_loop earlier front running ready in
      poll_loop earlier (front ++ back) running ready
      ≡ poll_loop mid.0.pending_queue back mid.0.running_txns mid.1
unfolding poll_loop
poll_loop-append earlier [] back running ready = refl
poll_loop-append earlier (c ∷ front) back running ready =
    elim (Bool-cases (can_start earlier running c)) [
      | inl h ↦
          rw (h, poll_loop)
            (poll_loop-append earlier front back (running ++ c ∷ []) (ready ++ c.id ∷ []))
      | inr h ↦ rw (h, poll_loop) (poll_loop-append (earlier ++ c ∷ []) front back running ready)
    ]

conflicting_waits :
    (earlier running : List TxnQueueItem) (d : TxnQueueItem)
    → any (conflicts d) earlier ≡ true
    → can_start earlier running d ≡ false
unfolding can_start
conflicting_waits earlier running d h = ground arith

last_waits :
    (earlier running : List TxnQueueItem) (d : TxnQueueItem) (ready : List ℕ)
    → can_start earlier running d ≡ false
    → poll_loop earlier (d ∷ []) running ready
      ≡ (record { pending_queue = earlier ++ d ∷ []; running_txns = running }, ready)
unfolding poll_loop
last_waits earlier running d ready h = rw (h, poll_loop)

-- No overtaking: if polling a queue leaves an item pending that conflicts with `d`, then polling the
-- queue with `d` behind it gives the same, with `d` pending at its end.
pub poll_ready_no_overtaking :
    (s : Scheduler) (d : TxnQueueItem)
    → any (conflicts d) (poll_ready s).0.pending_queue ≡ true
    → let (t, ready) = poll_ready s in
      poll_ready (record s { pending_queue = s.pending_queue ++ d ∷ [] })
      ≡ (record t { pending_queue = t.pending_queue ++ d ∷ [] }, ready)
unfolding poll_ready
poll_ready_no_overtaking s d h =
    poll_loop-append [] s.pending_queue (d ∷ []) s.running_txns []
    ∙ last_waits _ _ d _ (conflicting_waits _ _ d h)

-- What a call starts goes to the end of the running list in queue order, its ids are returned, and no item is lost or doubled.
abbrev pub Starts :
    List TxnQueueItem → List TxnQueueItem → List TxnQueueItem → List ℕ → Scheduler × List ℕ → Type 0
Starts earlier rest running ready (t, ready') =
    (started : List TxnQueueItem) × (t.running_txns ≡ running ++ started)
    × (ready' ≡ ready ++ map (λ (i : TxnQueueItem). i.id) started)
    × Perm (t.pending_queue ++ started) (earlier ++ rest)

poll_loop-Starts :
    (earlier rest running : List TxnQueueItem) (ready : List ℕ)
    → Starts earlier rest running ready (poll_loop earlier rest running ready)
unfolding poll_loop
poll_loop-Starts earlier [] running ready =
    ([], sym (append-nil running), sym (append-nil ready), Perm.refl (earlier ++ []))
poll_loop-Starts earlier (c ∷ rest) running ready =
    elim (Bool-cases (can_start earlier running c)) [
      | inl h ↦
          let (started, r, i, p) =
            poll_loop-Starts earlier rest (running ++ c ∷ []) (ready ++ c.id ∷ []) in
          rw (h, poll_loop)
            (
              c ∷ started,
              r ∙ append_assoc running (c ∷ []) started,
              i ∙ append_assoc ready (c.id ∷ []) _,
              Perm.trans (perm_middle _ started)
                  (Perm.trans (Perm.cons c p) (Perm.symm (perm_middle earlier rest))),
            )
      | inr h ↦
          let (started, r, i, p) = poll_loop-Starts (earlier ++ c ∷ []) rest running ready in
          rw (h, poll_loop) (started, r, i, rw append_assoc at p)
    ]

-- One call of `poll_ready` moves some items, the started ones, from the pending queue behind the
-- running transactions and returns their ids in that order; together the two lists hold the items
-- that were pending, each as often.
pub poll_ready-Starts :
    (s : Scheduler)
    → let (t, ready) = poll_ready s in
      (started : List TxnQueueItem) × (t.running_txns ≡ s.running_txns ++ started)
      × (ready ≡ map (λ (i : TxnQueueItem). i.id) started)
      × Perm (t.pending_queue ++ started) s.pending_queue
unfolding poll_ready
poll_ready-Starts s = poll_loop-Starts [] s.pending_queue s.running_txns []

-- Every item of the list is held back by `running` or by what stands before it.
abbrev Blocked : List TxnQueueItem → List TxnQueueItem → List TxnQueueItem → Type 0
Blocked running earlier [] = Unit {0}
Blocked running earlier (c ∷ cs) =
    (can_start earlier running c ≡ false) × Blocked running (earlier ++ c ∷ []) cs

can_start-push :
    (earlier running : List TxnQueueItem) (x c : TxnQueueItem)
    → can_start earlier running c ≡ false
    → can_start earlier (running ++ x ∷ []) c ≡ false
unfolding can_start
can_start-push earlier running x c h = ground (
  arith,
  any-append (λ (t : TxnQueueItem). is_version_change t.mode) running (x ∷ []),
  any-append (conflicts c) running (x ∷ []),
)

Blocked-push :
    (running earlier items : List TxnQueueItem) (x : TxnQueueItem)
    → Blocked running earlier items
    → Blocked (running ++ x ∷ []) earlier items
Blocked-push running earlier [] x b = tt
Blocked-push running earlier (c ∷ cs) x b =
    (can_start-push earlier running x c b.0, Blocked-push running (earlier ++ c ∷ []) cs x b.1)

Blocked-wait :
    (running earlier items : List TxnQueueItem) (c : TxnQueueItem)
    → Blocked running earlier items
    → can_start (earlier ++ items) running c ≡ false
    → Blocked running earlier (items ++ c ∷ [])
Blocked-wait running earlier [] c b h = (rw append-nil at h, tt)
Blocked-wait running earlier (x ∷ xs) c b h =
    (b.0, Blocked-wait running (earlier ++ x ∷ []) xs c b.1 (rw append_assoc h))

poll_loop-Blocked :
    (earlier rest running : List TxnQueueItem) (ready : List ℕ)
    → Blocked running [] earlier
    → let t = (poll_loop earlier rest running ready).0 in Blocked t.running_txns [] t.pending_queue
unfolding poll_loop
poll_loop-Blocked earlier [] running ready b = b
poll_loop-Blocked earlier (c ∷ rest) running ready b =
    elim (Bool-cases (can_start earlier running c)) [
      | inl h ↦
          rw (h, poll_loop)
            (poll_loop-Blocked earlier rest (running ++ c ∷ []) (ready ++ c.id ∷ [])
              (Blocked-push running [] earlier c b))
      | inr h ↦
          rw (h, poll_loop)
            (poll_loop-Blocked (earlier ++ c ∷ []) rest running ready
              (Blocked-wait running [] earlier c b h))
    ]

Blocked-poll_loop :
    (earlier rest running : List TxnQueueItem) (ready : List ℕ)
    → Blocked running earlier rest
    → poll_loop earlier rest running ready
      ≡ (record { pending_queue = earlier ++ rest; running_txns = running }, ready)
unfolding poll_loop
Blocked-poll_loop earlier [] running ready b = rw append-nil
Blocked-poll_loop earlier (c ∷ rest) running ready b =
    rw (b.0, poll_loop)
      (Blocked-poll_loop (earlier ++ c ∷ []) rest running ready b.1 ∙ rw append_assoc)

-- One call starts all that may start: a second call right after it starts nothing and changes
-- nothing.
pub poll_ready_again : (s : Scheduler) → poll_ready (poll_ready s).0 ≡ ((poll_ready s).0, [])
unfolding poll_ready
poll_ready_again s =
    Blocked-poll_loop [] _ _ [] (poll_loop-Blocked [] s.pending_queue s.running_txns [] tt)

head_starts :
    (c : TxnQueueItem) (rest : List TxnQueueItem)
    → poll_loop [] (c ∷ rest) [] [] ≡ poll_loop [] rest (c ∷ []) (c.id ∷ [])
unfolding poll_loop can_start
head_starts c rest = refl

-- The head of the queue starts, and its id comes first, whenever nothing runs.
pub poll_ready_progress :
    (s : Scheduler) (c : TxnQueueItem) (rest : List TxnQueueItem)
    → s.pending_queue ≡ c ∷ rest
    → s.running_txns ≡ []
    → (ids : List ℕ) × ((poll_ready s).1 ≡ c.id ∷ ids)
unfolding poll_ready
poll_ready_progress s c rest p r =
    let (started, _, i, _) = poll_loop-Starts [] rest (c ∷ []) (c.id ∷ []) in
    (map (λ (i : TxnQueueItem). i.id) started, rw (p, r, head_starts c rest) i)
