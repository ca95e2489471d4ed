-- ===== src/Memory/Cursor/From.antt =====
-- What `range((start, Unbounded))` leaves of a `BTreeMap`.
use indexed_db_boa.Base.{
  ◌≡◌, refl, sym, ap, ◌∙◌, subst, true, false, [], ◌∷◌, arith, Bool-cases, inl, inr, All,
}
use indexed_db_boa.Base.Order.{Ordering, swap}
use indexed_db_boa.Base.Lex.{store_ord}
use indexed_db_boa.Base.Map.{Ord, Map, get, same_iff}
use indexed_db_boa.Base.Sorted.{Above, Sorted, Ordering-cases}
use indexed_db_boa.Memory.Cursor.Kinds.{Bound, included, excluded, unbounded}
use indexed_db_boa.Memory.Cursor.Ranges.{above, entries_from}

module _ {ℓ} {K : Type ℓ} ⦃o : Ord K⦄ where
  above_lt : (j k : K) → o.cmp j k ≡ Ordering.lt → above (excluded j) k ≡ true
  above_lt j k h = rw (above, h) refl

  above_eq : (j k : K) → j ≡ k → above (excluded j) k ≡ false
  above_eq j k h = rw (above, (o.cmp_eq j k).1 h) refl

  pub above_gt : (j k : K) → o.cmp j k ≡ Ordering.lt → above (excluded k) j ≡ false
  above_gt j k h = rw (above, o.cmp_swap j k ∙ ap swap h) refl

  pub above_mono :
      (b : Bound K) (j k : K) → above b j ≡ true → o.cmp j k ≡ Ordering.lt → above b k ≡ true
  above_mono unbounded j k h l = refl
  above_mono (included a) j k h l = elim (Ordering-cases (o.cmp a j)) [
    | inl e ↦ rw (above, o.cmp_trans a j k e l) refl
    | inr (inl e) ↦
        rw (above, subst (λ x. o.cmp x k ≡ Ordering.lt) (sym ((o.cmp_eq a j).0 e)) l) refl
    | inr (inr e) ↦ ground (arith, e)
  ]
  above_mono (excluded a) j k h l = elim (Ordering-cases (o.cmp a j)) [
    | inl e ↦ rw (above, o.cmp_trans a j k e l) refl
    | inr (inl e) ↦ ground (arith, e)
    | inr (inr e) ↦ ground (arith, e)
  ]

module _ {ℓ κ} {K : Type ℓ} {V : Type κ} ⦃o : Ord K⦄ where
  pub entries_from-All {μ} :
      (P : K × V → Type μ) (b : Bound K) (m : Map K V) → All P m → All P (entries_from b m)
  entries_from-All P b [] h = h
  entries_from-All P b ((k, v) ∷ m) h = elim (Bool-cases (above b k)) [
    | inl e ↦ rw e h
    | inr e ↦ rw e (entries_from-All P b m h.1)
  ]

  pub entries_from-Sorted : (b : Bound K) (m : Map K V) → Sorted m → Sorted (entries_from b m)
  entries_from-Sorted b [] h = h
  entries_from-Sorted b ((k, v) ∷ m) h = elim (Bool-cases (above b k)) [
    | inl e ↦ rw e h
    | inr e ↦ rw e (entries_from-Sorted b m h.1)
  ]

  pub entries_from-get :
      (b : Bound K) (m : Map K V) (k : K) → above b k ≡ true → get k (entries_from b m) ≡ get k m
  unfolding get
  entries_from-get b [] k h = refl
  entries_from-get b ((j, v) ∷ m) k h = elim (Bool-cases (above b j)) [
    | inl e ↦ rw e refl
    | inr e ↦ ground (arith, e, h, same_iff j k, entries_from-get b m k h)
  ]

  bounded_later :
      (b : Bound K) (j : K) (m : Map K V)
      → above b j ≡ true
      → Above j m
      → All (λ (e : K × V). above b e.0 ≡ true) m
  bounded_later b j [] h a = tt
  bounded_later b j ((k, v) ∷ m) h a = (above_mono b j k h a.0, bounded_later b j m h a.1)

  pub entries_from-above :
      (b : Bound K) (m : Map K V)
      → Sorted m
      → All (λ (e : K × V). above b e.0 ≡ true) (entries_from b m)
  entries_from-above b [] h = tt
  entries_from-above b ((j, v) ∷ m) h = elim (Bool-cases (above b j)) [
    | inl e ↦ rw e (e, bounded_later b j m e h.0)
    | inr e ↦ rw e (entries_from-above b m h.1)
  ]

  entries_from-here :
      (b : Bound K) (k : K) (v : V) (m : Map K V)
      → above b k ≡ true
      → entries_from b ((k, v) ∷ m) ≡ (k, v) ∷ m
  entries_from-here b k v m h = rw h refl

  entries_from-later :
      (b : Bound K) (k : K) (v : V) (m : Map K V)
      → above b k ≡ false
      → entries_from b ((k, v) ∷ m) ≡ entries_from b m
  entries_from-later b k v m h = rw h refl

  entries_from_all : (k : K) (m : Map K V) → Above k m → entries_from (excluded k) m ≡ m
  entries_from_all k [] h = refl
  entries_from_all k ((j, v) ∷ m) h = rw (above_lt k j h.0) refl

  first-Above :
      (j : K) (b : Bound K) (m : Map K V) (k : K) (v : V) (rest : Map K V)
      → Above j m
      → entries_from b m ≡ (k, v) ∷ rest
      → o.cmp j k ≡ Ordering.lt
  first-Above j b m k v rest a e = (subst (Above j) e (entries_from-All _ b m a)).0

  -- The entries after the first one.
  pub entries_from-excluded :
      (b : Bound K) (m : Map K V) (k : K) (v : V) (rest : Map K V)
      → Sorted m
      → entries_from b m ≡ (k, v) ∷ rest
      → entries_from (excluded k) m ≡ rest
  entries_from-excluded b [] k v rest h e = cc
  entries_from-excluded b ((j, w) ∷ m) k v rest h e = elim (Bool-cases (above b j)) [
    | inl a ↦
        let f : ◌≡◌ {A = Map K V} ((j, w) ∷ m) ((k, v) ∷ rest) =
          sym (entries_from-here b j w m a) ∙ e in
        let g : j ≡ k = cc in
        let t : m ≡ rest = cc in
        rw (above_eq k j (sym g)) (entries_from_all k m (subst (λ x. Above x m) g h.0) ∙ t)
    | inr a ↦
        let f : entries_from b m ≡ (k, v) ∷ rest = sym (entries_from-later b j w m a) ∙ e in
        rw (above_gt j k (first-Above j b m k v rest h.0 f))
          (entries_from-excluded b m k v rest h.1 f)
  ]
