-- ===== src/Key/Decode/Bounds.antt =====
-- The decoder of key/encode.rs on any bytes: what it consumes, and what it may return.
use indexed_db_boa.Base.{
  ℕ, zero, suc, ◌+◌, ◌≤◌, ◌<◌, ◌≡◌, ◌≢◌, ap, ◌∙◌, Bool, true, false, ◌&&◌, Bool-cases, inl, inr,
  List, [], ◌∷◌, ◌++◌, length, length-drop, drop, take, Result, ok, err, Result-cases, ◌>>=◌, ltb,
  ◌==◌, if◌then◌else◌, arith,
}
use indexed_db_boa.Float.{is_nan}
use indexed_db_boa.Key.{
  Key, Keys, number, date, string, binary, array, nil, cons, KeyError, Fault, number_nan, date_nan,
  out_of_fuel,
}
use indexed_db_boa.Key.Order.{HasNoNan, AllNoNan}
use indexed_db_boa.Key.Encode.{
  tag_array_terminator, tag_number, tag_date, tag_string, tag_binary, tag_array,
}
use indexed_db_boa.Key.Decode.{
  unescape, EscapeFaults, decode_units, decode_string_cesu8, decode_binary_escaped, decode_float,
  decode_elements, push_key, decode_key_internal, decode_key, two_byte_unit, three_byte_unit,
  string_faults, binary_faults, lead, Lead, one, two, three, bad, is_continuation,
  decode_f64_orderable, max_key_decode_depth,
}

-- What is right of a result on the bytes `xs`.
abbrev pub Sound : List ℕ → Result KeyError (Key × ℕ) → Type 0
Sound xs (ok (k, n)) = (1 ≤ n) × (n ≤ length xs) × HasNoNan k
Sound xs (err e) = e ≢ out_of_fuel

abbrev SoundItems : List ℕ → ℕ → Result KeyError (Keys × ℕ) → Type 0
SoundItems xs offset (ok (ks, n)) = (offset < n) × (n ≤ offset + length xs) × AllNoNan ks
SoundItems xs offset (err e) = e ≢ out_of_fuel

abbrev SoundBytes : List ℕ → ℕ → Result KeyError (List ℕ × ℕ) → Type 0
SoundBytes xs i (ok (bs, n)) = (i < n) × (n ≤ i + length xs)
SoundBytes xs i (err e) = e ≢ out_of_fuel

if_either {ℓ κ} :
    {A : Type ℓ} (P : A → Type κ) (t : Bool) (a b : A) → P a → P b → P (if t then a else b)
if_either P true a b p q = p
if_either P false a b p q = q

elim_either {ℓ κ} :
    {A : Type ℓ} (P : A → Type κ) (t : Bool) (a b : A)
    → P a
    → P b
    → P (elim t [ true ↦ a | false ↦ b ])
elim_either P true a b p q = p
elim_either P false a b p q = q

SoundBytes-shift :
    (xs ys : List ℕ) (i j : ℕ) (r : Result KeyError (List ℕ × ℕ))
    → i ≤ j
    → j + length ys ≤ i + length xs
    → SoundBytes ys j r
    → SoundBytes xs i r
SoundBytes-shift xs ys i j (ok (bs, n)) h k s = omega arith
SoundBytes-shift xs ys i j (err e) h k s = s

unescape-Sound :
    (faults : EscapeFaults) (bs out : List ℕ) (i : ℕ) → SoundBytes bs i (unescape faults bs out i)
unfolding unescape
unescape-Sound faults [] out i = λ e. cc
unescape-Sound faults (b ∷ []) out i =
    elim_either (SoundBytes (b ∷ []) i) (b == 0) _ _ (λ e. cc) (λ e. cc)
unescape-Sound faults (b ∷ c ∷ rest) out i =
    elim_either (SoundBytes (b ∷ c ∷ rest) i) (b == 0) _ _
      (elim_either (SoundBytes (b ∷ c ∷ rest) i) (c == 0) _ _ (omega arith) (
        elim_either (SoundBytes (b ∷ c ∷ rest) i) (c == 0xFF) _ _
          (SoundBytes-shift (b ∷ c ∷ rest) rest i (i + 2) _ (omega arith) (omega arith)
            (unescape-Sound faults rest (out ++ 0 ∷ []) (i + 2)))
          (λ e. cc)))
      (SoundBytes-shift (b ∷ c ∷ rest) (c ∷ rest) i (i + 1) _ (omega arith) (omega arith)
        (unescape-Sound faults (c ∷ rest) (out ++ b ∷ []) (i + 1)))

lead_either {ℓ κ} :
    {A : Type ℓ} (P : A → Type κ) (l : Lead) (a b c d : A)
    → P a
    → P b
    → P c
    → P d
    → P (elim l [ one ↦ a | two ↦ b | three ↦ c | bad ↦ d ])
lead_either P one a b c d p q r s = p
lead_either P two a b c d p q r s = q
lead_either P three a b c d p q r s = r
lead_either P bad a b c d p q r s = s

abbrev NotStuck {ℓ} : {A : Type ℓ} → Result KeyError A → Type ℓ
NotStuck r = r ≢ err out_of_fuel

decode_units-NotStuck : (bs units : List ℕ) → NotStuck (decode_units bs units)
unfolding decode_units
decode_units-NotStuck [] units = λ h. cc
decode_units-NotStuck (b ∷ []) units =
    lead_either NotStuck (lead b) _ _ _ _ (λ h. cc) (λ h. cc) (λ h. cc) (λ h. cc)
decode_units-NotStuck (b ∷ b2 ∷ []) units =
    lead_either NotStuck (lead b) _ _ _ _ (decode_units-NotStuck (b2 ∷ []) (units ++ b ∷ []))
      (elim_either NotStuck (is_continuation b2) _ _ (λ h. cc) (λ h. cc)) (λ h. cc) (λ h. cc)
decode_units-NotStuck (b ∷ b2 ∷ b3 ∷ rest) units =
    lead_either NotStuck (lead b) _ _ _ _ (decode_units-NotStuck (b2 ∷ b3 ∷ rest) (units ++ b ∷ []))
      (elim_either NotStuck (is_continuation b2) _ _
        (decode_units-NotStuck (b3 ∷ rest) (units ++ two_byte_unit b b2 ∷ [])) (λ h. cc))
      (elim_either NotStuck (is_continuation b2 && is_continuation b3) _ _
        (decode_units-NotStuck rest (units ++ three_byte_unit b b2 b3 ∷ [])) (λ h. cc))
      (λ h. cc)

module _ (tag : ℕ) (bytes : List ℕ) where
  decode_string-Sound :
      Sound
        (tag ∷ bytes)
        (decode_string_cesu8 bytes >>= λ (units, consumed). ok (string units, consumed + 1))
  unfolding decode_string_cesu8
  decode_string-Sound = elim (Result-cases (unescape string_faults bytes [] 0)) [
    | inl ((us, n), e) ↦ elim (Result-cases (decode_units us [])) [
      | inl (units, d) ↦
          let h : SoundBytes bytes 0 (ok (us, n)) =
            rw e at (unescape-Sound string_faults bytes [] 0) in
          rw (e, d) (omega arith, omega arith, tt)
      | inr (x, d) ↦ rw (e, d) (λ f. decode_units-NotStuck us [] (d ∙ ap err f))
    ]
    | inr (x, e) ↦ rw e (rw e at (unescape-Sound string_faults bytes [] 0))
  ]

  decode_binary-Sound :
      Sound
        (tag ∷ bytes)
        (decode_binary_escaped bytes >>= λ (data', consumed). ok (binary data', consumed + 1))
  unfolding decode_binary_escaped
  decode_binary-Sound = elim (Result-cases (unescape binary_faults bytes [] 0)) [
    | inl ((us, n), e) ↦
        let h : SoundBytes bytes 0 (ok (us, n)) =
          rw e at (unescape-Sound binary_faults bytes [] 0) in
        rw e (omega arith, omega arith, tt)
    | inr (x, e) ↦ rw e (rw e at (unescape-Sound binary_faults bytes [] 0))
  ]

  decode_float-Sound :
      (key : ℕ → Key) (fault : Fault)
      → ((n : ℕ) → is_nan n ≡ false → HasNoNan (key n))
      → Sound (tag ∷ bytes) (decode_float key fault bytes)
  unfolding decode_float
  decode_float-Sound key fault h = elim (Bool-cases (ltb (length bytes) 8)) [
    | inl e ↦ rw e (λ f. cc)
    | inr e ↦ rw e (elim (Bool-cases (is_nan (decode_f64_orderable (take 8 bytes)))) [
      | inl f ↦ rw f (λ g. cc)
      | inr f ↦ rw f (omega arith, ground arith, h _ f)
    ])
  ]

push_key-AllNoNan : (ks : Keys) (k : Key) → AllNoNan ks → HasNoNan k → AllNoNan (push_key ks k)
push_key-AllNoNan nil k a h = (h, tt)
push_key-AllNoNan (cons j ks) k a h = (a.0, push_key-AllNoNan ks k a.1 h)

SoundItems-shift :
    (xs ys : List ℕ) (i j : ℕ) (r : Result KeyError (Keys × ℕ))
    → i ≤ j
    → j + length ys ≤ i + length xs
    → SoundItems ys j r
    → SoundItems xs i r
SoundItems-shift xs ys i j (ok (bs, n)) h k s = (omega arith, omega arith, s.2)
SoundItems-shift xs ys i j (err e) h k s = s

decode_elements-Sound :
    (decode : List ℕ → Result KeyError (Key × ℕ))
    → ((xs : List ℕ) → Sound xs (decode xs))
    → (fuel : ℕ) (bytes : List ℕ) (acc : Keys) (offset : ℕ) → length bytes ≤ fuel
    → AllNoNan acc
    → SoundItems bytes offset (decode_elements decode fuel bytes acc offset)
unfolding decode_elements
decode_elements-Sound decode s fuel [] acc offset f a = λ e. cc
decode_elements-Sound decode s zero (b ∷ bytes) acc offset f a = absurd (omega arith)
decode_elements-Sound decode s (suc fuel) (b ∷ bytes) acc offset f a =
    elim_either (SoundItems (b ∷ bytes) offset) (b == tag_array_terminator) _ _
      (omega arith, omega arith, a)
      (elim (Result-cases (decode (b ∷ bytes))) [
        | inl ((k, n), e) ↦
            let h : Sound (b ∷ bytes) (ok (k, n)) = rw e at (s (b ∷ bytes)) in
            rw e (
              SoundItems-shift (b ∷ bytes) (drop n (b ∷ bytes)) offset (offset + n) _ (omega arith)
                (omega (arith, length-drop n (b ∷ bytes)))
                (decode_elements-Sound decode s fuel (drop n (b ∷ bytes)) (push_key acc k)
                  (offset + n) (omega (arith, length-drop n (b ∷ bytes)))
                  (push_key-AllNoNan acc k a h.2)))
        | inr (x, e) ↦ rw e (rw e at (s (b ∷ bytes)))
      ])

decode_array-Sound :
    (tag : ℕ) (bytes : List ℕ) (r : Result KeyError (Keys × ℕ))
    → SoundItems bytes 1 r
    → Sound (tag ∷ bytes) (r >>= λ (elements, offset). ok (array elements, offset))
decode_array-Sound tag bytes (ok (ks, n)) s = (omega arith, omega arith, s.2)
decode_array-Sound tag bytes (err e) s = s

decode_key_internal-Sound : (levels : ℕ) (xs : List ℕ) → Sound xs (decode_key_internal levels xs)
unfolding decode_key_internal
decode_key_internal-Sound zero xs = λ e. cc
decode_key_internal-Sound (suc levels) [] = λ e. cc
decode_key_internal-Sound (suc levels) (tag ∷ bytes) =
    let P : Result KeyError (Key × ℕ) → Type 0 = Sound (tag ∷ bytes) in
    if_either P (tag == tag_number) _ _ (decode_float-Sound tag bytes number number_nan (λ n h. h))
      (if_either P (tag == tag_date) _ _ (decode_float-Sound tag bytes date date_nan (λ n h. h)) (
        if_either P (tag == tag_string) _ _ (decode_string-Sound tag bytes) (
          if_either P (tag == tag_binary) _ _ (decode_binary-Sound tag bytes) (
            if_either P (tag == tag_array) _ _
              (decode_array-Sound tag bytes _ (
                decode_elements-Sound (decode_key_internal levels)
                  (decode_key_internal-Sound levels) (length bytes) bytes nil 1 (omega arith) tt))
              (λ e. cc)))))

-- On any bytes `decode_key` ends with a key or an error of the source (its element loop never
-- runs out of fuel). A key comes with a count from 1 to the number of bytes, and holds no NaN.
pub decode_key-Sound : (xs : List ℕ) → Sound xs (decode_key xs)
unfolding decode_key
decode_key-Sound [] = λ e. cc
decode_key-Sound (b ∷ bytes) = decode_key_internal-Sound (max_key_decode_depth + 1) (b ∷ bytes)
