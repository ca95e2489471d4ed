-- ===== src/Memory/Cursor/Entries.antt =====
-- The entries of one store from a bound on.
use indexed_db_boa.Base.{
  ℕ, ◌≤◌, ◌≡◌, refl, ◌∙◌, subst, Bool, true, false, List, [], ◌∷◌, none, some, if◌then◌else◌, arith,
  Bool-cases, inl, inr, All, ◌==◌, ==_iff, length,
}
use indexed_db_boa.Base.Order.{Ordering, cmp_slice}
use indexed_db_boa.Base.Lex.{bytes_ord, store_ord}
use indexed_db_boa.Base.Map.{Map, get, same, same_iff}
use indexed_db_boa.Base.Sorted.{Sorted}
use indexed_db_boa.Memory.{RecordKey, record_ord}
use indexed_db_boa.Memory.Cursor.Kinds.{Bound}
use indexed_db_boa.Memory.Cursor.Ranges.{above, entries_from}
use indexed_db_boa.Memory.Cursor.Store.{bound_at}
use indexed_db_boa.Memory.Cursor.Suffix.{cmp_same, own, own-get}
use indexed_db_boa.Memory.Cursor.From.{entries_from-get, entries_from-Sorted, entries_from-above}
use indexed_db_boa.Memory.Cursor.Bounds.{passes}

module _ {ℓ} {A : Type ℓ} where
  pub All-map {κ μ} :
      {P : A → Type κ} {Q : A → Type μ} (f : (a : A) → P a → Q a) (xs : List A)
      → All P xs
      → All Q xs
  All-map f [] h = tt
  All-map f (x ∷ xs) h = (f x h.0, All-map f xs h.1)

  pub All-map2 {κ μ ν} :
      {P : A → Type κ} {Q : A → Type μ} {R : A → Type ν} (f : (a : A) → P a → Q a → R a)
      (xs : List A)
      → All P xs
      → All Q xs
      → All R xs
  All-map2 f [] h k = tt
  All-map2 f (x ∷ xs) h k = (f x h.0 k.0, All-map2 f xs h.1 k.1)

module _ {κ} {V : Type κ} where
  get_later :
      (k : List ℕ) (v : V) (m : Map (List ℕ) V) (e : List ℕ × V)
      → cmp_slice k e.0 ≡ Ordering.lt
      → get e.0 m ≡ some e.1
      → get e.0 ((k, v) ∷ m) ≡ some e.1
  unfolding get
  get_later k v m e l g = rw l g

  -- Each entry of a map in key order is found under its key.
  pub Sorted-get :
      (m : Map (List ℕ) V) → Sorted m → All (λ (e : List ℕ × V). get e.0 m ≡ some e.1) m
  unfolding get
  Sorted-get [] h = tt
  Sorted-get ((k, v) ∷ m) h =
      (rw ((same_iff k k).1 refl) refl, All-map2 (get_later k v m) m h.0 (Sorted-get m h.1))

  pub own-All {μ} :
      (id : ℕ) (P : RecordKey × V → Type μ) (m : Map RecordKey V)
      → All P m
      → All (λ (e : List ℕ × V). P ((id, e.0), e.1)) (own id m)
  own-All id P [] h = tt
  own-All id P (((sid, k), v) ∷ m) h = elim (Bool-cases (sid == id)) [
    | inl e ↦ rw e (subst (λ x. P ((x, k), v)) ((==_iff sid id).0 e) h.0, own-All id P m h.1)
    | inr e ↦ rw e tt
  ]

  pub length-own : (id : ℕ) (m : Map RecordKey V) → length (own id m) ≤ length m
  length-own id [] = omega arith
  length-own id (((sid, k), v) ∷ m) = elim (Bool-cases (sid == id)) [
    | inl e ↦ rw e (omega (arith, length-own id m))
    | inr e ↦ rw e (omega arith)
  ]

  pub length-entries_from :
      (b : Bound RecordKey) (m : Map RecordKey V) → length (entries_from b m) ≤ length m
  length-entries_from b [] = omega arith
  length-entries_from b ((k, v) ∷ m) = elim (Bool-cases (above b k)) [
    | inl e ↦ rw e (omega arith)
    | inr e ↦ rw e (omega (arith, length-entries_from b m))
  ]

  above_absent :
      (b : Bound RecordKey) (k : RecordKey) (m : Map RecordKey V)
      → above b k ≡ false
      → All (λ (e : RecordKey × V). above b e.0 ≡ true) m
      → get k m ≡ none
  unfolding get
  above_absent b k [] h a = refl
  above_absent b k ((j, v) ∷ m) h a = elim (Bool-cases (same j k)) [
    | inl e ↦
        let f = subst (λ x. above b x ≡ true) ((same_iff j k).0 e) a.0 in
        absurd (ground (arith, f, h))
    | inr e ↦ rw e (above_absent b k m h a.1)
  ]

above_store :
    (id : ℕ) (at : List ℕ × Bool) (k : RecordKey)
    → above {K = RecordKey} (bound_at ((id, at.0), at.1)) k ≡ true
    → id ≤ k.0
above_store id (x, true) k h = ground arith
above_store id (x, false) k h = ground arith

pub above-passes :
    (id : ℕ) (at : List ℕ × Bool) (j : List ℕ)
    → above {K = RecordKey} (bound_at ((id, at.0), at.1)) (id, j) ≡ passes at j
above-passes id (x, true) j = rw (above, cmp_same id x j) (ground arith)
above-passes id (x, false) j = rw (above, cmp_same id x j) (ground arith)

module _ {κ} {V : Type κ} (id : ℕ) (at : List ℕ × Bool) (m : Map RecordKey V)
    (sorted : Sorted m) where
  -- The entries of the store from the start on.
  abbrev pub left_of : Map (List ℕ) V
  left_of = own id (entries_from (bound_at ((id, at.0), at.1)) m)

  pub left_of-get : (j : List ℕ) → get j left_of ≡ (if passes at j then get (id, j) m else none)
  left_of-get j =
      let b = bound_at ((id, at.0), at.1) in
      let e = own-get id j (entries_from b m) (entries_from-Sorted b m sorted) (
        All-map (λ x h. above_store id at x.0 h) (entries_from b m)
          (entries_from-above b m sorted)) in
      e ∙ (elim (Bool-cases (passes at j)) [
        | inl h ↦ rw h (entries_from-get b m (id, j) (above-passes id at j ∙ h))
        | inr h ↦ rw h (
            above_absent b (id, j) (entries_from b m) (above-passes id at j ∙ h)
              (entries_from-above b m sorted))
      ])
