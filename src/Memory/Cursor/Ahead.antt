-- ===== src/Memory/Cursor/Ahead.antt =====
-- The entries that a bound leaves ahead of a cursor of crates/boa_idb_memory/src/cursor.rs, counted.
use indexed_db_boa.Base.{
  ℕ, suc, ◌<◌, ◌≤◌, ◌≡◌, refl, sym, ◌∙◌, subst, Bool, true, false, [], ◌∷◌, Option, none, some,
  if◌then◌else◌, ◌==◌, arith, Bool-cases, Option-cases, inl, inr, length,
}
use indexed_db_boa.Base.Order.{Ordering}
use indexed_db_boa.Base.Map.{Ord, Map}
use indexed_db_boa.Base.Sorted.{Ordering-cases}
use indexed_db_boa.Memory.Cursor.Kinds.{Bound, included, excluded, unbounded}
use indexed_db_boa.Memory.Cursor.Ranges.{
  above, below, entries_from, first_from, last_to, next_entry, owned,
}
use indexed_db_boa.Memory.Cursor.From.{above_mono}

module _ {ℓ κ} {K : Type ℓ} {V : Type κ} where
  abbrev pub counted : (K → Bool) → Map K V → ℕ
  counted admits [] = 0
  counted admits ((k, v) ∷ m) = let rest = counted admits m in if admits k then suc rest else rest

  counted_mono :
      (f g : K → Bool) (m : Map K V)
      → ((k : K) → f k ≡ true → g k ≡ true)
      → counted f m ≤ counted g m
  counted_mono f g [] h = omega arith
  counted_mono f g ((k, v) ∷ m) h = elim (Bool-cases (f k)) [
    | inl e ↦ rw (e, h k e) (omega (arith, counted_mono f g m h))
    | inr e ↦ elim (Bool-cases (g k)) [
      | inl d ↦ rw (e, d) (omega (arith, counted_mono f g m h))
      | inr d ↦ rw (e, d) (omega (arith, counted_mono f g m h))
    ]
  ]

  pub counted_most : (f : K → Bool) (m : Map K V) → counted f m ≤ length m
  counted_most f [] = omega arith
  counted_most f ((k, v) ∷ m) = elim (Bool-cases (f k)) [
    | inl e ↦ rw e (omega (arith, counted_most f m))
    | inr e ↦ rw e (omega (arith, counted_most f m))
  ]

  -- Fewer entries when one that was counted no longer is.
  counted_here :
      (f g : K → Bool) (k : K) (v : V) (m : Map K V)
      → ((j : K) → f j ≡ true → g j ≡ true)
      → f k ≡ false
      → g k ≡ true
      → counted f ((k, v) ∷ m) < counted g ((k, v) ∷ m)
  counted_here f g k v m h e d = rw (e, d) (omega (arith, counted_mono f g m h))

  counted_later :
      (f g : K → Bool) (k : K) (v : V) (m : Map K V)
      → ((j : K) → f j ≡ true → g j ≡ true)
      → counted f m < counted g m
      → counted f ((k, v) ∷ m) < counted g ((k, v) ∷ m)
  counted_later f g k v m h l = elim (Bool-cases (f k)) [
    | inl e ↦ rw (e, h k e) (omega arith)
    | inr e ↦ elim (Bool-cases (g k)) [
      | inl d ↦ rw (e, d) (omega arith)
      | inr d ↦ rw (e, d) (omega arith)
    ]
  ]

module _ {ℓ κ} {K : Type ℓ} {V : Type κ} (id sid : ℕ) (k : K) (v : V) where
  owned_own : (sid == id) ≡ true → owned id (some ((sid, k), v)) ≡ some ((sid, k), v)
  owned_own h = rw h refl

  owned_other : (sid == id) ≡ false → owned id (some ((sid, k), v)) ≡ none
  owned_other h = rw h refl

module _ {ℓ} {K : Type ℓ} ⦃o : Ord K⦄ where
  abbrev pub admits : Bool → Bound K → K → Bool
  admits desc b k = if desc then below b k else above b k

  above_past :
      (b : Bound K) (k : K)
      → above b k ≡ true
      → (j : K) → above (excluded k) j ≡ true
      → above b j ≡ true
  above_past b k h j a = elim (Ordering-cases (o.cmp k j)) [
    | inl e ↦ above_mono b k j h e
    | inr (inl e) ↦ ground (arith, e)
    | inr (inr e) ↦ ground (arith, e)
  ]

  below_mono :
      (b : Bound K) (j k : K) → below b k ≡ true → o.cmp j k ≡ Ordering.lt → below b j ≡ true
  below_mono unbounded j k h l = refl
  below_mono (included a) j k h l = elim (Ordering-cases (o.cmp k a)) [
    | inl e ↦ rw (below, o.cmp_trans j k a l e) refl
    | inr (inl e) ↦ rw (below, subst (λ x. o.cmp j x ≡ Ordering.lt) ((o.cmp_eq k a).0 e) l) refl
    | inr (inr e) ↦ ground (arith, e)
  ]
  below_mono (excluded a) j k h l = elim (Ordering-cases (o.cmp k a)) [
    | inl e ↦ rw (below, o.cmp_trans j k a l e) refl
    | inr (inl e) ↦ ground (arith, e)
    | inr (inr e) ↦ ground (arith, e)
  ]

  below_past :
      (b : Bound K) (k : K)
      → below b k ≡ true
      → (j : K) → below (excluded k) j ≡ true
      → below b j ≡ true
  below_past b k h j a = elim (Ordering-cases (o.cmp j k)) [
    | inl e ↦ below_mono b j k h e
    | inr (inl e) ↦ ground (arith, e)
    | inr (inr e) ↦ ground (arith, e)
  ]

  not_past : (desc : Bool) (k : K) → admits desc (excluded k) k ≡ false
  not_past true k = rw (below, (o.cmp_eq k k).1 refl) refl
  not_past false k = rw (above, (o.cmp_eq k k).1 refl) refl

  admits_past :
      (desc : Bool) (b : Bound K) (k : K)
      → admits desc b k ≡ true
      → (j : K) → admits desc (excluded k) j ≡ true
      → admits desc b j ≡ true
  admits_past true b k h = below_past b k h
  admits_past false b k h = above_past b k h

module _ {ℓ κ} {K : Type ℓ} {V : Type κ} ⦃o : Ord K⦄ where
  abbrev pub ahead : Bool → Bound K → Map K V → ℕ
  ahead desc b m = counted (admits desc b) m

  first_from-here :
      (b : Bound K) (j : K) (w : V) (m : Map K V)
      → above b j ≡ true
      → first_from b ((j, w) ∷ m) ≡ some (j, w)
  unfolding first_from
  first_from-here b j w m h = rw (first_from, entries_from, h) refl

  first_from-later :
      (b : Bound K) (j : K) (w : V) (m : Map K V)
      → above b j ≡ false
      → first_from b ((j, w) ∷ m) ≡ first_from b m
  unfolding first_from
  first_from-later b j w m h = rw (first_from, entries_from, h) refl

  last_to-here :
      (b : Bound K) (j : K) (w : V) (m : Map K V)
      → below b j ≡ true
      → last_to b m ≡ none
      → last_to b ((j, w) ∷ m) ≡ some (j, w)
  unfolding last_to
  last_to-here b j w m h e = rw (h, e) refl

  last_to-later :
      (b : Bound K) (j : K) (w : V) (m : Map K V) (x : K × V)
      → below b j ≡ true
      → last_to b m ≡ some x
      → last_to b ((j, w) ∷ m) ≡ some x
  unfolding last_to
  last_to-later b j w m x h e = rw (h, e) refl

  last_to-none :
      (b : Bound K) (j : K) (w : V) (m : Map K V)
      → below b j ≡ false
      → last_to b ((j, w) ∷ m) ≡ none
  unfolding last_to
  last_to-none b j w m h = rw h refl

  -- The entry at the head was found.
  fewer_here :
      (desc : Bool) (b : Bound K) (j k : K) (w : V) (m : Map K V)
      → admits desc b j ≡ true
      → j ≡ k
      → (admits desc b k ≡ true)
        × (ahead desc (excluded k) ((j, w) ∷ m) < ahead desc b ((j, w) ∷ m))
  fewer_here desc b j k w m a e =
      subst
        (λ x.
          (admits desc b x ≡ true)
          × (ahead desc (excluded x) ((j, w) ∷ m) < ahead desc b ((j, w) ∷ m)))
        e
        (
          a,
          counted_here (admits desc (excluded j)) (admits desc b) j w m (admits_past desc b j a)
              (not_past desc j) a,
        )

  fewer_later :
      (desc : Bool) (b : Bound K) (j k : K) (w : V) (m : Map K V)
      → (admits desc b k ≡ true) × (ahead desc (excluded k) m < ahead desc b m)
      → (admits desc b k ≡ true)
        × (ahead desc (excluded k) ((j, w) ∷ m) < ahead desc b ((j, w) ∷ m))
  fewer_later desc b j k w m (a, h) =
      (a, counted_later (admits desc (excluded k)) (admits desc b) j w m (admits_past desc b k a) h)

  first_fewer :
      (b : Bound K) (m : Map K V) (k : K) (v : V)
      → first_from b m ≡ some (k, v)
      → (admits false b k ≡ true) × (ahead false (excluded k) m < ahead false b m)
  unfolding first_from
  first_fewer b [] k v e = cc
  first_fewer b ((j, w) ∷ m) k v e = elim (Bool-cases (above b j)) [
    | inl a ↦
        let f = sym (first_from-here b j w m a) ∙ e in
        let g : j ≡ k = cc in fewer_here false b j k w m a g
    | inr a ↦
        fewer_later false b j k w m (first_fewer b m k v (sym (first_from-later b j w m a) ∙ e))
  ]

  last_fewer :
      (b : Bound K) (m : Map K V) (k : K) (v : V)
      → last_to b m ≡ some (k, v)
      → (admits true b k ≡ true) × (ahead true (excluded k) m < ahead true b m)
  unfolding last_to
  last_fewer b [] k v e = cc
  last_fewer b ((j, w) ∷ m) k v e = elim (Bool-cases (below b j)) [
    | inl a ↦ elim (Option-cases (last_to b m)) [
      | inl h ↦
          let f = sym (last_to-here b j w m a h) ∙ e in
          let g : j ≡ k = cc in fewer_here true b j k w m a g
      | inr (x, h) ↦
          let f = sym (last_to-later b j w m x a h) ∙ e in
          fewer_later true b j k w m (last_fewer b m k v (h ∙ f))
    ]
    | inr a ↦ let f = sym (last_to-none b j w m a) ∙ e in cc
  ]

  pub next_fewer :
      (desc : Bool) (b : Bound K) (m : Map K V) (k : K) (v : V)
      → next_entry desc b m ≡ some (k, v)
      → ahead desc (excluded k) m < ahead desc b m
  next_fewer true b m k v e = (last_fewer b m k v e).1
  next_fewer false b m k v e = (first_fewer b m k v e).1

module _ {ℓ κ} {K : Type ℓ} {V : Type κ} where
  -- With what `owned` lets through.
  pub owned_entry :
      (id : ℕ) (r : Option ((ℕ × K) × V)) (x : (ℕ × K) × V) → owned id r ≡ some x → r ≡ some x
  owned_entry id none x e = cc
  owned_entry id (some ((sid, k), v)) x e = elim (Bool-cases (sid == id)) [
    | inl h ↦ sym (owned_own id sid k v h) ∙ e
    | inr h ↦ let f = sym (owned_other id sid k v h) ∙ e in cc
  ]
