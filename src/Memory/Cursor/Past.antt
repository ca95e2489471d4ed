-- ===== src/Memory/Cursor/Past.antt =====
-- The records left, and the range's end, of a forward store cursor of
-- crates/boa_idb_memory/src/cursor.rs.
use indexed_db_boa.Base.{
  ℕ, ◌≡◌, ◌⊎◌, refl, sym, ap, ◌∙◌, subst, Bool, true, false, List, Option, none, some,
  if◌then◌else◌, arith, inl, inr,
}
use indexed_db_boa.Base.Order.{Ordering, cmp_slice, swap, cmp_slice-swap, cmp_slice_trans}
use indexed_db_boa.Base.Lex.{bytes_ord, store_ord}
use indexed_db_boa.Base.Map.{same}
use indexed_db_boa.Base.Sorted.{Above, Ordering-cases, Above-trans, Above-absent, Above-get}
use indexed_db_boa.Key.Range.{EncodedRange, contains, check_lower, check_upper}
use indexed_db_boa.Memory.{record_ord}
use indexed_db_boa.Memory.Cursor.Kinds.{MemoryCursor}
use indexed_db_boa.Memory.Cursor.Store.{past_upper}
use indexed_db_boa.Memory.Cursor.Consumed.{Rows, Slots, merged}

-- What a walk over the range is to find at a key.
abbrev pub row : EncodedRange → Rows → Slots → List ℕ → Option (List ℕ)
row range rows slots k = if contains range k then merged rows slots k else none

pub merged-Above :
    (k j : List ℕ) (rows : Rows) (slots : Slots)
    → Above k rows
    → Above k slots
    → (cmp_slice k j ≡ Ordering.lt) ⊎ (merged rows slots j ≡ none)
merged-Above k j rows slots a b = elim (Ordering-cases (cmp_slice k j)) [
  | inl e ↦ inl e
  | inr (inl e) ↦ inr (absent k a b (sym ((bytes_ord.cmp_eq k j).0 e)))
  | inr (inr e) ↦
      let f = cmp_slice-swap k j ∙ ap swap e in
      inr (absent j (Above-trans j k rows f a) (Above-trans j k slots f b) refl)
]
  where
    absent : (i : List ℕ) → Above i rows → Above i slots → j ≡ i → merged rows slots j ≡ none
    absent i c d e =
        let g = Above-get i slots d in
        let h = Above-get i rows c in
        subst (λ x. merged rows slots x ≡ none) (sym e) (rw (merged, g) h)

check_lower-false :
    (lower : Option (List ℕ × Bool)) (k : List ℕ) → check_lower lower k false ≡ false
check_lower-false none k = refl
check_lower-false (some (lo, true)) k = ground arith
check_lower-false (some (lo, false)) k = ground arith

abbrev past_hi : Option (List ℕ × Bool) → List ℕ → Bool
past_hi upper k = elim upper [
  | none ↦ false
  | some (hi, open_end) ↦ elim (cmp_slice k hi) [
    | Ordering.gt ↦ true
    | Ordering.eq ↦ open_end
    | Ordering.lt ↦ false
  ]
]

past_hi-after :
    (hi : List ℕ) (open_end : Bool) (k j : List ℕ)
    → past_hi (some (hi, open_end)) k ≡ true
    → cmp_slice k j ≡ Ordering.lt
    → check_upper (some (hi, open_end)) j true ≡ false
past_hi-after hi open_end k j h l = elim (Ordering-cases (cmp_slice k hi)) [
  | inl e ↦ ground (arith, e)
  | inr (inl e) ↦
      let f = subst (λ x. cmp_slice x j ≡ Ordering.lt) ((bytes_ord.cmp_eq k hi).0 e) l in
      rw (check_upper, cmp_slice-swap hi j ∙ ap swap f) refl
  | inr (inr e) ↦
      let f = cmp_slice_trans hi k j (cmp_slice-swap k hi ∙ ap swap e) l in
      rw (check_upper, cmp_slice-swap hi j ∙ ap swap f) refl
]

past_hi-check :
    (lower upper : Option (List ℕ × Bool)) (k j : List ℕ)
    → past_hi upper k ≡ true
    → cmp_slice k j ≡ Ordering.lt
    → check_lower lower j (check_upper upper j true) ≡ false
past_hi-check lower none k j h l = cc
past_hi-check lower (some (hi, open_end)) k j h l =
    ap (check_lower lower j) (past_hi-after hi open_end k j h l) ∙ check_lower-false lower j

past_upper_forward :
    (c : MemoryCursor) (k : List ℕ) → c.desc ≡ false → past_upper c k ≡ past_hi c.range.upper k
unfolding past_upper
past_upper_forward c k h = rw h refl

-- Past the upper bound, no later key is in the range.
pub past_upper-contains :
    (c : MemoryCursor) (k j : List ℕ)
    → c.desc ≡ false
    → past_upper c k ≡ true
    → cmp_slice k j ≡ Ordering.lt
    → contains c.range j ≡ false
unfolding contains
past_upper-contains c k j f h l =
    past_hi-check c.range.lower c.range.upper k j (sym (past_upper_forward c k f) ∙ h) l

pub merged-same :
    (k j : List ℕ) (rows : Rows) (slots : Slots)
    → Above k rows
    → Above k slots
    → same k j ≡ true
    → merged rows slots j ≡ none
merged-same k j rows slots a b e =
    rw (merged, Above-absent k j slots b e) (Above-absent k j rows a e)
