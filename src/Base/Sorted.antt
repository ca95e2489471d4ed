-- ===== src/Base/Sorted.antt =====
-- `BTreeMap`s whose entries stand in key order, each key once.
use mathlib.Core.Path.{◌≡◌, refl, sym, ap, ◌∙◌, subst}
use mathlib.Core.Logic.{◌⊎◌, inl, inr}
use mathlib.Core.Bool.{true}
use mathlib.Core.Option.{none}
use mathlib.Core.List.{[], ◌∷◌}
use native.Mathlib.Omega.{arith}
use indexed_db_boa.Base.Tests.{Bool-cases}
use indexed_db_boa.Base.Lists.{All}
use indexed_db_boa.Base.Order.{Ordering, swap}
use indexed_db_boa.Base.Map.{Ord, Map, get, same, same_iff, insert, remove}

pub Ordering-cases : (o : Ordering) → (o ≡ Ordering.lt) ⊎ ((o ≡ Ordering.eq) ⊎ (o ≡ Ordering.gt))
Ordering-cases Ordering.lt = inl refl
Ordering-cases Ordering.eq = inr (inl refl)
Ordering-cases Ordering.gt = inr (inr refl)

module _ {ℓ κ} {K : Type ℓ} {V : Type κ} ⦃o : Ord K⦄ where
  abbrev pub Above : K → Map K V → Type 0
  Above k m = All (λ (e : K × V). o.cmp k e.0 ≡ Ordering.lt) m

  abbrev pub Sorted : Map K V → Type 0
  Sorted [] = Unit {0}
  Sorted ((k, v) ∷ m) = Above k m × Sorted m

  pub Above-trans : (j k : K) (m : Map K V) → o.cmp j k ≡ Ordering.lt → Above k m → Above j m
  Above-trans j k [] h a = tt
  Above-trans j k (e ∷ m) h a = (o.cmp_trans j k e.0 h a.0, Above-trans j k m h a.1)

  Above-insert :
      (j k : K) (v : V) (m : Map K V) → o.cmp j k ≡ Ordering.lt → Above j m → Above j (insert k v m)
  unfolding insert
  Above-insert j k v [] h a = (h, tt)
  Above-insert j k v ((i, w) ∷ m) h a = elim (Ordering-cases (o.cmp k i)) [
    | inl e ↦ rw (insert, e) (h, a)
    | inr (inl e) ↦ rw (insert, e) (h, a.1)
    | inr (inr e) ↦ rw (insert, e) (a.0, Above-insert j k v m h a.1)
  ]

  pub insert-Sorted : (k : K) (v : V) (m : Map K V) → Sorted m → Sorted (insert k v m)
  unfolding insert
  insert-Sorted k v [] h = (tt, tt)
  insert-Sorted k v ((i, w) ∷ m) h = elim (Ordering-cases (o.cmp k i)) [
    | inl e ↦ rw (insert, e) ((e, Above-trans k i m e h.0), h)
    | inr (inl e) ↦ rw (insert, e) (subst (λ j. Above j m) (sym ((o.cmp_eq k i).0 e)) h.0, h.1)
    | inr (inr e) ↦
        rw (insert, e)
          (Above-insert i k v m (o.cmp_swap k i ∙ ap swap e) h.0, insert-Sorted k v m h.1)
  ]

  Above-remove : (j k : K) (m : Map K V) → Above j m → Above j (remove k m)
  unfolding remove
  Above-remove j k [] a = tt
  Above-remove j k ((i, w) ∷ m) a = elim (Bool-cases (same i k)) [
    | inl e ↦ rw e (Above-remove j k m a.1)
    | inr e ↦ rw e (a.0, Above-remove j k m a.1)
  ]

  pub remove-Sorted : (k : K) (m : Map K V) → Sorted m → Sorted (remove k m)
  unfolding remove
  remove-Sorted k [] h = tt
  remove-Sorted k ((i, w) ∷ m) h = elim (Bool-cases (same i k)) [
    | inl e ↦ rw e (remove-Sorted k m h.1)
    | inr e ↦ rw e (Above-remove i k m h.0, remove-Sorted k m h.1)
  ]

  -- A key below all entries is not in the map.
  pub Above-get : (k : K) (m : Map K V) → Above k m → get k m ≡ none
  unfolding get
  Above-get k [] a = refl
  Above-get k ((i, w) ∷ m) a = ground (arith, o.cmp_swap k i, Above-get k m a.1)

  pub Above-absent : (j k : K) (m : Map K V) → Above j m → same j k ≡ true → get k m ≡ none
  Above-absent j k m a e = ap (λ i. get i m) (sym ((same_iff j k).0 e)) ∙ Above-get j m a
