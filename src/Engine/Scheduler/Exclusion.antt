-- ===== src/Engine/Scheduler/Exclusion.antt =====
-- engine/scheduler.rs never runs two conflicting transactions at once, whatever calls it gets.
use mathlib.Core.Path.{subst}
use indexed_db_boa.Base.{
  ℕ, ◌⊎◌, ◌≡◌, refl, sym, ◌∙◌, Bool, true, false, List, [], ◌∷◌, ◌++◌, some, any, any-or, retain,
  All, All-append, ◌==◌, arith, Bool-cases, Option-cases, inl, inr,
}
use indexed_db_boa.Engine.Scheduler.{
  TxnQueueItem, Scheduler, new, enqueue, contains, conflicts, can_start, poll_loop, poll_ready,
  on_txn_finished, remove_first, requeue_unstarted, forget,
}

any-false : (xs : List ℕ) → any (λ x. false) xs ≡ false
any-false [] = refl
any-false (x ∷ xs) = any-false xs

contains-any : (ys : List ℕ) (x : ℕ) → contains ys x ≡ any (λ y. x == y) ys
contains-any [] x = refl
contains-any (y ∷ ys) x = ground (arith, contains-any ys x)

intersects_comm : (xs ys : List ℕ) → any (λ x. contains ys x) xs ≡ any (λ y. contains xs y) ys
intersects_comm [] ys = sym (any-false ys)
intersects_comm (x ∷ xs) ys =
    rw (contains-any ys x, intersects_comm xs ys)
      (sym (any-or (λ y. x == y) (λ y. contains xs y) ys))

pub conflicts_comm : (a b : TxnQueueItem) → conflicts a b ≡ conflicts b a
unfolding conflicts
conflicts_comm a b = ground (arith, intersects_comm a.scope b.scope)

-- No item of the list conflicts with a later one.
abbrev pub Exclusive : List TxnQueueItem → Type 0
Exclusive [] = Unit {0}
Exclusive (a ∷ items) = All (λ b. conflicts a b ≡ false) items × Exclusive items

none_of {ℓ} :
    {A : Type ℓ} (p : A → Bool) (xs : List A) → any p xs ≡ false → All (λ x. p x ≡ false) xs
none_of p [] h = tt
none_of p (x ∷ xs) h = (ground arith, none_of p xs (ground arith))

Exclusive-push :
    (items : List TxnQueueItem) (c : TxnQueueItem)
    → Exclusive items
    → any (conflicts c) items ≡ false
    → Exclusive (items ++ c ∷ [])
Exclusive-push [] c e h = (tt, tt)
Exclusive-push (a ∷ items) c e h = (
  All-append (λ b. conflicts a b ≡ false) items (c ∷ []) e.0
      (conflicts_comm a c ∙ ground arith, tt),
  Exclusive-push items c e.1 (ground arith),
)

can_start_lem :
    (earlier running : List TxnQueueItem) (c : TxnQueueItem)
    → can_start earlier running c ≡ true
    → any (conflicts c) running ≡ false
unfolding can_start
can_start_lem earlier running c h = ground arith

poll_loop-Exclusive :
    (earlier rest running : List TxnQueueItem) (ready : List ℕ)
    → Exclusive running
    → Exclusive (poll_loop earlier rest running ready).0.running_txns
unfolding poll_loop
poll_loop-Exclusive earlier [] running ready e = e
poll_loop-Exclusive earlier (c ∷ rest) running ready e =
    elim (Bool-cases (can_start earlier running c)) [
      | inl h ↦
          rw (h, poll_loop)
            (poll_loop-Exclusive earlier rest (running ++ c ∷ []) (ready ++ c.id ∷ [])
              (Exclusive-push running c e (can_start_lem earlier running c h)))
      | inr h ↦ rw (h, poll_loop) (poll_loop-Exclusive (earlier ++ c ∷ []) rest running ready e)
    ]

All-retain {ℓ} :
    (P : TxnQueueItem → Type ℓ) (keep : TxnQueueItem → Bool) (items : List TxnQueueItem)
    → All P items
    → All P (retain keep items)
All-retain P keep [] h = tt
All-retain P keep (t ∷ ts) h = elim (Bool-cases (keep t)) [
  | inl e ↦ rw e (h.0, All-retain P keep ts h.1)
  | inr e ↦ rw e (All-retain P keep ts h.1)
]

Exclusive-retain :
    (keep : TxnQueueItem → Bool) (items : List TxnQueueItem)
    → Exclusive items
    → Exclusive (retain keep items)
Exclusive-retain keep [] e = tt
Exclusive-retain keep (t ∷ ts) e = elim (Bool-cases (keep t)) [
  | inl h ↦ rw h (All-retain (λ b. conflicts t b ≡ false) keep ts e.0, Exclusive-retain keep ts e.1)
  | inr h ↦ rw h (Exclusive-retain keep ts e.1)
]

-- Either the head is taken, or it stays and the rest is searched.
remove_first-inv :
    (id : ℕ) (t : TxnQueueItem) (ts : List TxnQueueItem) (item : TxnQueueItem)
    (others : List TxnQueueItem)
    → remove_first id (t ∷ ts) ≡ some (item, others)
    → ((t ≡ item) × (ts ≡ others))
      ⊎ ((rest : List TxnQueueItem) × (remove_first id ts ≡ some (item, rest))
          × (others ≡ t ∷ rest))
unfolding remove_first
remove_first-inv id t ts item others e = elim (Bool-cases (t.id == id)) [
  | inl h ↦ inl (cc (rw (h, remove_first) at e), cc (rw (h, remove_first) at e))
  | inr h ↦ elim (Option-cases (remove_first id ts)) [
    | inl f ↦ absurd (ground arith)
    | inr ((i, rest), f) ↦ inr (rest, ground arith, ground arith)
  ]
]

-- What `remove_first` takes out and leaves.
pub remove_first-All {ℓ} :
    (P : TxnQueueItem → Type ℓ) (id : ℕ) (ts : List TxnQueueItem) (item : TxnQueueItem)
    (others : List TxnQueueItem)
    → remove_first id ts ≡ some (item, others)
    → All P ts
    → P item × All P others
unfolding remove_first
remove_first-All P id [] item others e h = cc
remove_first-All P id (t ∷ ts) item others e h = elim (remove_first-inv id t ts item others e) [
  | inl (a, b) ↦ (subst P a h.0, subst (All P) b h.1)
  | inr (rest, f, g) ↦ let (p, q) = remove_first-All P id ts item rest f h.1 in (p, rw g (h.0, q))
]

remove_first-Exclusive :
    (id : ℕ) (ts : List TxnQueueItem) (item : TxnQueueItem) (others : List TxnQueueItem)
    → remove_first id ts ≡ some (item, others)
    → Exclusive ts
    → Exclusive others
unfolding remove_first
remove_first-Exclusive id [] item others e h = cc
remove_first-Exclusive id (t ∷ ts) item others e h = elim (remove_first-inv id t ts item others e) [
  | inl (a, b) ↦ subst Exclusive b h.1
  | inr (rest, f, g) ↦ rw g (
    (remove_first-All (λ b. conflicts t b ≡ false) id ts item rest f h.0).1,
    remove_first-Exclusive id ts item rest f h.1,
  )
]

-- The calls that the driver makes, in any order.
pub data Step (s : Scheduler) : Scheduler → Type 0 where
  enqueues : (item : TxnQueueItem) → Step s (enqueue s item)
  polls : Step s (poll_ready s).0
  finishes : (id : ℕ) → Step s (on_txn_finished s id)
  requeues : (id : ℕ) → Step s (requeue_unstarted s id)
  forgets : (id : ℕ) → Step s (forget s id)

pub data Reach : Scheduler → Type 0 where
  start : {s : Scheduler} → s ≡ new → Reach s
  next : {s t : Scheduler} → Reach s → Step s t → Reach t

Step-Exclusive : {s t : Scheduler} → Step s t → Exclusive s.running_txns → Exclusive t.running_txns
unfolding enqueue poll_ready on_txn_finished requeue_unstarted forget
Step-Exclusive (enqueues item) e = e
Step-Exclusive {s} polls e = poll_loop-Exclusive [] s.pending_queue s.running_txns [] e
Step-Exclusive {s} (finishes id) e = Exclusive-retain _ s.running_txns e
Step-Exclusive {s} (requeues id) e = elim (Option-cases (remove_first id s.running_txns)) [
  | inl h ↦ rw (h, requeue_unstarted) e
  | inr ((item, others), h) ↦
      rw (h, requeue_unstarted) (remove_first-Exclusive id s.running_txns item others h e)
]
Step-Exclusive {s} (forgets id) e = Exclusive-retain _ s.running_txns e

-- In every state that the calls of the scheduler reach from the empty one, in any order, no two
-- running transactions conflict.
pub Reach-Exclusive : {s : Scheduler} → Reach s → Exclusive s.running_txns
Reach-Exclusive {s} (start e) = rw e (unfold new in tt)
Reach-Exclusive (next r st) = Step-Exclusive st (Reach-Exclusive r)
