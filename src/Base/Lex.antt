-- ===== src/Base/Lex.antt =====
-- The derived `Ord` of numbers, byte strings and tuples.
use Prim.Native.Nat.{ℕ}
use mathlib.Core.Path.{◌≡◌, refl, sym, ap, ◌∙◌, subst}
use mathlib.Core.Logic.{◌↔◌, ◌⊎◌, inl, inr}
use mathlib.Core.List.{List}
use native.Mathlib.Omega.{arith}
use indexed_db_boa.Base.Order.{
  Ordering, compare, then_with, swap, cmp_slice, cmp_slice_eq, cmp_slice_refl, cmp_slice-swap,
  cmp_slice_trans,
}
use indexed_db_boa.Base.Map.{Ord}

pub compare_iff : (a b : ℕ) → (compare a b ≡ Ordering.eq) ↔ (a ≡ b)
compare_iff a b = ground arith

pub compare-swap : (a b : ℕ) → compare b a ≡ swap (compare a b)
compare-swap a b = ground arith

pub compare_trans :
    (a b c : ℕ) → compare a b ≡ Ordering.lt → compare b c ≡ Ordering.lt → compare a c ≡ Ordering.lt
compare_trans a b c h k = ground arith

pub cmp_slice_iff : (a b : List ℕ) → (cmp_slice a b ≡ Ordering.eq) ↔ (a ≡ b)
cmp_slice_iff a b = (cmp_slice_eq a b, λ e. ap (cmp_slice a) (sym e) ∙ cmp_slice_refl a)

instance abbrev pub store_ord : Ord ℕ
store_ord = record {
  cmp = compare;
  cmp_eq = compare_iff;
  cmp_swap = compare-swap;
  cmp_trans = compare_trans;
}

instance abbrev pub bytes_ord : Ord (List ℕ)
bytes_ord = record {
  cmp = cmp_slice;
  cmp_eq = cmp_slice_iff;
  cmp_swap = cmp_slice-swap;
  cmp_trans = cmp_slice_trans;
}

then_with_iff :
    (o p : Ordering) → (then_with o p ≡ Ordering.eq) ↔ ((o ≡ Ordering.eq) × (p ≡ Ordering.eq))
then_with_iff Ordering.lt p = ground arith
then_with_iff Ordering.eq p = ground arith
then_with_iff Ordering.gt p = ground arith

then_with-swap : (a b : Ordering) → then_with (swap a) (swap b) ≡ swap (then_with a b)
then_with-swap Ordering.lt b = refl
then_with-swap Ordering.eq b = refl
then_with-swap Ordering.gt b = refl

then_with_lt :
    (a b : Ordering)
    → then_with a b ≡ Ordering.lt
    → (a ≡ Ordering.lt) ⊎ ((a ≡ Ordering.eq) × (b ≡ Ordering.lt))
then_with_lt Ordering.lt b h = inl refl
then_with_lt Ordering.eq b h = inr (refl, h)
then_with_lt Ordering.gt b h = cc

module _ {ℓ κ} {A : Type ℓ} {B : Type κ} (o : Ord A) (p : Ord B) where
  abbrev pub cmp_pair : A × B → A × B → Ordering
  cmp_pair a b = then_with (o.cmp a.0 b.0) (p.cmp a.1 b.1)

  pub cmp_pair_eq : (a b : A × B) → (cmp_pair a b ≡ Ordering.eq) ↔ (a ≡ b)
  cmp_pair_eq a b = (
    λ h.
        let (e, f) = (then_with_iff (o.cmp a.0 b.0) (p.cmp a.1 b.1)).0 h in
        λ i. ((o.cmp_eq a.0 b.0).0 e i, (p.cmp_eq a.1 b.1).0 f i),
    λ e.
        (then_with_iff (o.cmp a.0 b.0) (p.cmp a.1 b.1)).1
          ((o.cmp_eq a.0 b.0).1 (λ i. (e i).0), (p.cmp_eq a.1 b.1).1 (λ i. (e i).1)),
  )

  pub cmp_pair-swap : (a b : A × B) → cmp_pair b a ≡ swap (cmp_pair a b)
  cmp_pair-swap a b =
      rw (o.cmp_swap a.0 b.0, p.cmp_swap a.1 b.1) (then_with-swap (o.cmp a.0 b.0) (p.cmp a.1 b.1))

  pub cmp_pair_trans :
      (a b c : A × B)
      → cmp_pair a b ≡ Ordering.lt
      → cmp_pair b c ≡ Ordering.lt
      → cmp_pair a c ≡ Ordering.lt
  cmp_pair_trans a b c h k = elim (then_with_lt (o.cmp a.0 b.0) (p.cmp a.1 b.1) h) [
    | inl e ↦ elim (then_with_lt (o.cmp b.0 c.0) (p.cmp b.1 c.1) k) [
      | inl f ↦ rw (o.cmp_trans a.0 b.0 c.0 e f) refl
      | inr (f, g) ↦ rw (subst (λ x. o.cmp a.0 x ≡ Ordering.lt) ((o.cmp_eq b.0 c.0).0 f) e) refl
    ]
    | inr (e, d) ↦ elim (then_with_lt (o.cmp b.0 c.0) (p.cmp b.1 c.1) k) [
      | inl f ↦ rw (subst (λ x. o.cmp x c.0 ≡ Ordering.lt) (sym ((o.cmp_eq a.0 b.0).0 e)) f) refl
      | inr (f, g) ↦
          rw ((o.cmp_eq a.0 c.0).1 ((o.cmp_eq a.0 b.0).0 e ∙ (o.cmp_eq b.0 c.0).0 f))
            (p.cmp_trans a.1 b.1 c.1 d g)
    ]
  ]

  abbrev pub pair_ord : Ord (A × B)
  pair_ord = record {
    cmp = cmp_pair;
    cmp_eq = cmp_pair_eq;
    cmp_swap = cmp_pair-swap;
    cmp_trans = cmp_pair_trans;
  }
