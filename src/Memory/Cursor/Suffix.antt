-- ===== src/Memory/Cursor/Suffix.antt =====
-- The part of a `BTreeMap` from a bound on that one store or one index owns.
use indexed_db_boa.Base.{
  ℕ, ◌≤◌, ◌≡◌, refl, sym, ap, ◌∙◌, subst, true, false, [], ◌∷◌, ◌++◌, Option, none, some,
  if◌then◌else◌, ◌==◌, arith, Bool-cases, inl, inr, All, ==_iff,
}
use indexed_db_boa.Base.Order.{compare, Ordering}
use indexed_db_boa.Base.Lex.{store_ord, pair_ord, compare_iff}
use indexed_db_boa.Base.Map.{is_eq, Ord, Map, get, same}
use indexed_db_boa.Base.Sorted.{Above, Sorted, Above-trans, Above-get}
use indexed_db_boa.Memory.Cursor.Kinds.{Bound, excluded}
use indexed_db_boa.Memory.Cursor.Ranges.{entries_from, first_from, owned}
use indexed_db_boa.Memory.Cursor.From.{entries_from-Sorted, entries_from-excluded}

-- The entries of one store or index that stand at the head of a map, and those after them.
module _ {ℓ κ} {K : Type ℓ} {V : Type κ} (id : ℕ) where
  abbrev pub tag : Map K V → Map (ℕ × K) V
  tag [] = []
  tag ((k, v) ∷ m) = ((id, k), v) ∷ tag m

  abbrev pub own : Map (ℕ × K) V → Map K V
  own [] = []
  own (((sid, k), v) ∷ m) = if sid == id then (k, v) ∷ own m else []

  abbrev pub others : Map (ℕ × K) V → Map (ℕ × K) V
  others [] = []
  others (((sid, k), v) ∷ m) = if sid == id then others m else ((sid, k), v) ∷ m

  -- Nothing, or another's entries first.
  abbrev pub Stops : Map (ℕ × K) V → Type 0
  Stops [] = Unit {0}
  Stops (((sid, k), v) ∷ m) = (sid == id) ≡ false

  pub own-others : (m : Map (ℕ × K) V) → m ≡ tag (own m) ++ others m
  own-others [] = refl
  own-others (((sid, k), v) ∷ m) = elim (Bool-cases (sid == id)) [
    | inl e ↦ rw e (λ i. ((((==_iff sid id).0 e) i, k), v) ∷ own-others m i)
    | inr e ↦ rw e refl
  ]

  pub others-Stops : (m : Map (ℕ × K) V) → Stops (others m)
  others-Stops [] = tt
  others-Stops (((sid, k), v) ∷ m) = elim (Bool-cases (sid == id)) [
    | inl e ↦ rw e (others-Stops m)
    | inr e ↦ rw e e
  ]

  abbrev pub first_entry : Map K V → Option ((ℕ × K) × V)
  first_entry [] = none
  first_entry ((k, v) ∷ m) = some ((id, k), v)

instance abbrev keyed {ℓ} : {K : Type ℓ} ⦃o : Ord K⦄ → Ord (ℕ × K)
keyed ⦃o⦄ = pair_ord store_ord o

module _ {ℓ} {K : Type ℓ} ⦃o : Ord K⦄ (id : ℕ) where
  pub cmp_same : (j k : K) → keyed.cmp (id, j) (id, k) ≡ o.cmp j k
  cmp_same j k = rw ((compare_iff id id).1 refl) refl

  same_own :
      (sid : ℕ) (j k : K)
      → (sid == id) ≡ true
      → same {K = ℕ × K} (sid, j) (id, k) ≡ same {K = K} j k
  same_own sid j k e =
      subst (λ x. is_eq (keyed.cmp (x, j) (id, k)) ≡ is_eq (o.cmp j k)) (sym ((==_iff sid id).0 e))
        (ap is_eq (cmp_same j k))

  above_others :
      (k j : K) (sid : ℕ)
      → id ≤ sid
      → (sid == id) ≡ false
      → keyed.cmp (id, k) (sid, j) ≡ Ordering.lt
  above_others k j sid h e = let l : compare id sid ≡ Ordering.lt = ground arith in rw l refl

module _ {ℓ κ} {K : Type ℓ} {V : Type κ} ⦃o : Ord K⦄ (id : ℕ) where
  pub owned-first_from :
      (b : Bound (ℕ × K)) (m : Map (ℕ × K) V) (left : Map K V) (right : Map (ℕ × K) V)
      → entries_from b m ≡ tag id left ++ right
      → Stops id right
      → owned id (first_from b m) ≡ first_entry id left
  unfolding first_from
  owned-first_from b m left right e h = rw (owned, e) (go left right h)
    where
      go :
          (left : Map K V) (right : Map (ℕ × K) V)
          → Stops id right
          → owned id (elim (tag id left ++ right) [ [] ↦ none | x ∷ rest ↦ some x ])
            ≡ first_entry id left
      go [] [] h = refl
      go [] (((sid, k), v) ∷ m) h = rw h refl
      go ((k, v) ∷ m) right h = rw ((==_iff id id).1 refl) refl

  own-Above : (k : K) (m : Map (ℕ × K) V) → Above (id, k) m → Above k (own id m)
  own-Above k [] a = tt
  own-Above k (((sid, j), v) ∷ m) a = elim (Bool-cases (sid == id)) [
    | inl e ↦ rw e (
      sym (cmp_same id k j)
          ∙ subst (λ x. keyed.cmp (id, k) (x, j) ≡ Ordering.lt) ((==_iff sid id).0 e) a.0,
      own-Above k m a.1,
    )
    | inr e ↦ rw e tt
  ]

  pub own-Sorted : (m : Map (ℕ × K) V) → Sorted m → Sorted (own id m)
  own-Sorted [] h = tt
  own-Sorted (((sid, j), v) ∷ m) h = elim (Bool-cases (sid == id)) [
    | inl e ↦
        rw e
          (own-Above j m (subst (λ x. Above (x, j) m) ((==_iff sid id).0 e) h.0), own-Sorted m h.1)
    | inr e ↦ rw e tt
  ]

  below_later :
      (k : K) (sid : ℕ) (j : K) (m : Map (ℕ × K) V)
      → id ≤ sid
      → (sid == id) ≡ false
      → Above (sid, j) m
      → Above (id, k) m
  below_later k sid j m h e a = Above-trans (id, k) (sid, j) m (above_others id k j sid h e) a

  pub others-get :
      (k : K) (m : Map (ℕ × K) V)
      → Sorted m
      → All (λ (e : (ℕ × K) × V). id ≤ e.0.0) m
      → get (id, k) (others id m) ≡ none
  unfolding get
  others-get k [] h a = refl
  others-get k (((sid, j), v) ∷ m) h a = elim (Bool-cases (sid == id)) [
    | inl e ↦ rw e (others-get k m h.1 a.1)
    | inr e ↦ rw e (
        Above-get (id, k) (((sid, j), v) ∷ m)
          (above_others id k j sid a.0 e, below_later k sid j m a.0 e h.0))
  ]

  pub own-get :
      (k : K) (m : Map (ℕ × K) V)
      → Sorted m
      → All (λ (e : (ℕ × K) × V). id ≤ e.0.0) m
      → get k (own id m) ≡ get (id, k) m
  unfolding get
  own-get k [] h a = refl
  own-get k (((sid, j), v) ∷ m) h a = elim (Bool-cases (sid == id)) [
    | inl e ↦ ground (arith, e, same_own id sid j k e, own-get k m h.1 a.1)
    | inr e ↦ rw e (
        sym (
          Above-get (id, k) (((sid, j), v) ∷ m)
            (above_others id k j sid a.0 e, below_later k sid j m a.0 e h.0)))
  ]

  -- The entries after a bound: some of the store or index, then nothing or another's.
  abbrev pub Remains : Map (ℕ × K) V → Bound (ℕ × K) → Map K V → Type (ℓ ⊔ κ)
  Remains m b left =
      (right : Map (ℕ × K) V) × (entries_from b m ≡ tag id left ++ right)
      × Stops id right
      × Sorted left

  pub Remains-first :
      (m : Map (ℕ × K) V) (b : Bound (ℕ × K)) (left : Map K V)
      → Remains m b left
      → owned id (first_from b m) ≡ first_entry id left
  Remains-first m b left (right, e, h, s) = owned-first_from b m left right e h

  pub Remains-next :
      (m : Map (ℕ × K) V) (b : Bound (ℕ × K)) (k : K) (v : V) (left : Map K V)
      → Sorted m
      → Remains m b ((k, v) ∷ left)
      → Remains m (excluded (id, k)) left
  Remains-next m b k v left o (right, e, h, s) =
      (right, entries_from-excluded b m (id, k) v (tag id left ++ right) o e, h, s.1)

  -- From a bound that lets no smaller store or index through.
  pub Remains-start :
      (m : Map (ℕ × K) V) (b : Bound (ℕ × K)) → Sorted m → Remains m b (own id (entries_from b m))
  Remains-start m b o = (
    others id (entries_from b m),
    own-others id (entries_from b m),
    others-Stops id (entries_from b m),
    own-Sorted (entries_from b m) (entries_from-Sorted b m o),
  )
