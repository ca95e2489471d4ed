-- ===== src/Base/Order.antt =====
-- Rust's `Ordering`, `Ordering::then`, `Ordering::reverse`, and the lexicographic `Ord` of slices.
pub use Prim.Native.Nat.{Ordering, compare}
use Prim.Native.Nat.{ℕ}
use mathlib.Core.Path.{◌≡◌, refl}
use mathlib.Core.List.{List, [], ◌∷◌}
use native.Mathlib.Omega.{arith}

abbrev pub then_with : Ordering → Ordering → Ordering
then_with Ordering.lt o = Ordering.lt
then_with Ordering.eq o = o
then_with Ordering.gt o = Ordering.gt

abbrev pub swap : Ordering → Ordering
swap Ordering.lt = Ordering.gt
swap Ordering.eq = Ordering.eq
swap Ordering.gt = Ordering.lt

-- `<[T]>::cmp` over numbers.
unfoldable pub cmp_slice : List ℕ → List ℕ → Ordering
cmp_slice [] [] = Ordering.eq
cmp_slice [] (y ∷ ys) = Ordering.lt
cmp_slice (x ∷ xs) [] = Ordering.gt
cmp_slice (x ∷ xs) (y ∷ ys) = then_with (compare x y) (cmp_slice xs ys)

pub then_with_assoc : (o p q : Ordering) → then_with (then_with o p) q ≡ then_with o (then_with p q)
then_with_assoc Ordering.lt p q = refl
then_with_assoc Ordering.eq p q = refl
then_with_assoc Ordering.gt p q = refl

pub then_with_eq : (o : Ordering) → then_with o Ordering.eq ≡ o
then_with_eq Ordering.lt = refl
then_with_eq Ordering.eq = refl
then_with_eq Ordering.gt = refl

pub cmp_slice_refl : (xs : List ℕ) → cmp_slice xs xs ≡ Ordering.eq
unfolding cmp_slice
cmp_slice_refl [] = refl
cmp_slice_refl (x ∷ xs) = ground (arith, cmp_slice_refl xs)

pub cmp_slice-swap : (xs ys : List ℕ) → cmp_slice ys xs ≡ swap (cmp_slice xs ys)
unfolding cmp_slice
cmp_slice-swap [] [] = refl
cmp_slice-swap [] (y ∷ ys) = refl
cmp_slice-swap (x ∷ xs) [] = refl
cmp_slice-swap (x ∷ xs) (y ∷ ys) = ground (arith, cmp_slice-swap xs ys)

pub cmp_slice_trans :
    (xs ys zs : List ℕ)
    → cmp_slice xs ys ≡ Ordering.lt
    → cmp_slice ys zs ≡ Ordering.lt
    → cmp_slice xs zs ≡ Ordering.lt
unfolding cmp_slice
cmp_slice_trans xs [] [] h k = cc
cmp_slice_trans [] [] (z ∷ zs) h k = cc
cmp_slice_trans (x ∷ xs) [] (z ∷ zs) h k = cc
cmp_slice_trans xs (y ∷ ys) [] h k = cc
cmp_slice_trans [] (y ∷ ys) (z ∷ zs) h k = refl
cmp_slice_trans (x ∷ xs) (y ∷ ys) (z ∷ zs) h k = ground (arith, cmp_slice_trans xs ys zs)

pub cmp_slice_eq : (xs ys : List ℕ) → cmp_slice xs ys ≡ Ordering.eq → xs ≡ ys
unfolding cmp_slice
cmp_slice_eq [] [] h = refl
cmp_slice_eq [] (y ∷ ys) h = cc
cmp_slice_eq (x ∷ xs) [] h = cc
cmp_slice_eq (x ∷ xs) (y ∷ ys) h = ground (arith, cmp_slice_eq xs ys)
