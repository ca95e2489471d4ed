-- ===== src/Base/Map.antt =====
-- `BTreeMap` as a list of entries in key order, for a key type whose `Ord` tells keys apart.
use mathlib.Core.Path.{◌≡◌, refl}
use mathlib.Core.Logic.{◌↔◌}
use mathlib.Core.Bool.{Bool, true, false}
use mathlib.Core.Option.{Option, none, some}
use mathlib.Core.List.{List, [], ◌∷◌, map}
use native.Mathlib.Omega.{arith}
use indexed_db_boa.Base.Tests.{if◌then◌else◌}
use indexed_db_boa.Base.Order.{Ordering, swap}

pub record Ord {ℓ} (K : Type ℓ) : Type ℓ where
  pub cmp : K → K → Ordering
  pub cmp_eq : (a b : K) → (cmp a b ≡ Ordering.eq) ↔ (a ≡ b)
  pub cmp_swap : (a b : K) → cmp b a ≡ swap (cmp a b)
  pub cmp_trans :
      (a b c : K) → cmp a b ≡ Ordering.lt → cmp b c ≡ Ordering.lt → cmp a c ≡ Ordering.lt

abbrev pub is_eq : Ordering → Bool
is_eq Ordering.lt = false
is_eq Ordering.eq = true
is_eq Ordering.gt = false

-- A map's entries.
abbrev pub Map {ℓ κ} : Type ℓ → Type κ → Type (ℓ ⊔ κ)
Map K V = List (K × V)

is_eq_iff : (x : Ordering) → (is_eq x ≡ true) ↔ (x ≡ Ordering.eq)
is_eq_iff Ordering.lt = ground arith
is_eq_iff Ordering.eq = ground arith
is_eq_iff Ordering.gt = ground arith

module _ {ℓ} {K : Type ℓ} ⦃o : Ord K⦄ where
  abbrev pub same : K → K → Bool
  same a b = is_eq (o.cmp a b)

  pub same_iff : (a b : K) → (same a b ≡ true) ↔ (a ≡ b)
  same_iff a b =
      (λ h. (o.cmp_eq a b).0 ((is_eq_iff _).0 h), λ h. (is_eq_iff _).1 ((o.cmp_eq a b).1 h))

module _ {ℓ κ} {K : Type ℓ} {V : Type κ} ⦃o : Ord K⦄ where
  unfoldable pub get : K → Map K V → Option V
  get k [] = none
  get k ((j, v) ∷ m) = if same j k then some v else get k m

  unfoldable pub insert : K → V → Map K V → Map K V
  insert k v [] = (k, v) ∷ []
  insert k v ((j, w) ∷ m) = elim (o.cmp k j) [
    | Ordering.lt ↦ (k, v) ∷ (j, w) ∷ m
    | Ordering.eq ↦ (k, v) ∷ m
    | Ordering.gt ↦ (j, w) ∷ insert k v m
  ]

  unfoldable pub remove : K → Map K V → Map K V
  remove k [] = []
  remove k ((j, w) ∷ m) = if same j k then remove k m else (j, w) ∷ remove k m

  abbrev pub keys : Map K V → List K
  keys m = map (λ (e : K × V). e.0) m

  pub get-insert :
      (j k : K) (v : V) (m : Map K V)
      → get j (insert k v m) ≡ (if same k j then some v else get j m)
  unfolding get insert
  get-insert j k v [] = refl
  get-insert j k v ((i, w) ∷ m) =
      ground (arith, same_iff k i, same_iff i j, same_iff k j, get-insert j k v m)

  pub get-remove :
      (j k : K) (m : Map K V) → get j (remove k m) ≡ (if same k j then none else get j m)
  unfolding get remove
  get-remove j k [] = ground arith
  get-remove j k ((i, w) ∷ m) =
      ground (arith, same_iff i k, same_iff i j, same_iff k j, get-remove j k m)

  -- Undoing an insertion, or a removal, at a key.
  pub get-insert_back :
      (j k : K) (v w : V) (m : Map K V)
      → get k m ≡ some w
      → get j (insert k w (insert k v m)) ≡ get j m
  get-insert_back j k v w m h =
      ground (arith, get-insert j k w (insert k v m), get-insert j k v m, same_iff k j, h)

  pub get-remove_back :
      (j k : K) (v : V) (m : Map K V) → get k m ≡ none → get j (remove k (insert k v m)) ≡ get j m
  get-remove_back j k v m h =
      ground (arith, get-remove j k (insert k v m), get-insert j k v m, same_iff k j, h)

  pub get-removed_back :
      (j k : K) (w : V) (m : Map K V) → get k m ≡ some w → get j (insert k w (remove k m)) ≡ get j m
  get-removed_back j k w m h =
      ground (arith, get-insert j k w (remove k m), get-remove j k m, same_iff k j, h)
