-- ===== src/Clone/Varint/RoundTrip.antt =====
-- What crates/boa_idb_core/src/clone/varint.rs writes, it reads back.
use Prim.Native.Nat.{bit_and, bit_or}
use native.Mathlib.Nat.{pow-suc, add-mul, mul_assoc, mul-le-mul_right}
use indexed_db_boa.Base.{
  ℕ, zero, suc, ◌+◌, ◌*◌, ◌/◌, ◌%◌, ◌^◌, ◌<◌, ◌≤◌, ◌≡◌, refl, sym, ap, ap₂, ◌∙◌, List, [], ◌∷◌,
  ◌++◌, append_assoc, true, false, ok, length, leb, ◌==◌, arith, Bool-cases, inl, inr,
}
use indexed_db_boa.Base.Bits.{bit_or-shift_right, and_low, and_bit}
use indexed_db_boa.Clone.Varint.{
  varint_byte, encode_loop, encode_uvarint, decode_loop, decode_uvarint,
}

varint_byte_last : (val : ℕ) → val < 128 → varint_byte val ≡ val
unfolding varint_byte
varint_byte_last val h = ground (arith, and_low 7 val)

varint_byte_more : (val : ℕ) → 128 ≤ val → varint_byte val ≡ 128 + val % 128
unfolding varint_byte
varint_byte_more val h = ground (arith, and_low 7 val, bit_or-shift_right 7 1 (val % 128))

pub encode_loop-append :
    (fuel val : ℕ) (out : List ℕ) → encode_loop fuel val out ≡ out ++ encode_loop fuel val []
unfolding encode_loop
encode_loop-append zero val out = refl
encode_loop-append (suc fuel) val out = elim (Bool-cases (val / 2 ^ 7 == 0)) [
  | inl e ↦ rw e refl
  | inr e ↦ rw e (
      encode_loop-append fuel (val / 2 ^ 7) (out ++ varint_byte val ∷ [])
      ∙ append_assoc out (varint_byte val ∷ []) _
      ∙ ap (◌++◌ out) (sym (encode_loop-append fuel (val / 2 ^ 7) (varint_byte val ∷ []))))
]

weights : (val p : ℕ) → val * p ≡ (val / 128) * (128 * p) + (val % 128) * p
weights val p =
    ap (λ v. v * p) (let e : val ≡ val / 128 * 128 + val % 128 = omega arith in e)
    ∙ add-mul (val / 128 * 128) (val % 128) p
    ∙ ap (λ v. v + val % 128 * p) (mul_assoc (val / 128) 128 p)

pow_step : (s : ℕ) → 2 ^ suc s ≡ 2 * 2 ^ s
pow_step s = rw pow-suc (omega arith)

pow_seven : (s : ℕ) → 2 ^ (s + 7) ≡ 128 * 2 ^ s
pow_seven s =
    ap (λ n. 2 ^ n) (let e : s + 7 ≡ suc (suc (suc (suc (suc (suc (suc s)))))) = omega arith in e)
    ∙ omega (
      arith,
      pow_step s,
      pow_step (suc s),
      pow_step (suc (suc s)),
      pow_step (suc (suc (suc s))),
      pow_step (suc (suc (suc (suc s)))),
      pow_step (suc (suc (suc (suc (suc s))))),
      pow_step (suc (suc (suc (suc (suc (suc s)))))),
    )

-- The group of a byte lands above the digits read so far.
joined :
    (s r d : ℕ) → r < 2 ^ s → d * 2 ^ s < 2 ^ 64 → bit_or r (d * 2 ^ s % 2 ^ 64) ≡ d * 2 ^ s + r
joined s r d h k =
    ap (λ (t : ℕ). bit_or r t) (let e : d * 2 ^ s % 2 ^ 64 ≡ d * 2 ^ s = omega arith in e)
    ∙ bit_or-shift_right s d r h

last_byte :
    (val s r offset : ℕ) (bytes : List ℕ)
    → val < 128
    → r < 2 ^ s
    → val * 2 ^ s + r < 2 ^ 64
    → decode_loop (varint_byte val ∷ bytes) offset r s ≡ ok (val * 2 ^ s + r, offset + 1)
unfolding decode_loop
last_byte val s r offset bytes l h k =
    let a : bit_and val 0x7F ≡ val = omega (arith, and_low 7 val) in
    let b : (bit_and val 0x80 == 0) ≡ true = ground (arith, and_bit 7 val) in
    rw (varint_byte_last val l, a, b) (rw (joined s r val h (omega arith)) refl)

more_byte :
    (val s r offset : ℕ) (bytes : List ℕ)
    → 128 ≤ val
    → s + 7 ≤ 63
    → r < 2 ^ s
    → val * 2 ^ s + r < 2 ^ 64
    → decode_loop (varint_byte val ∷ bytes) offset r s
      ≡ decode_loop bytes (offset + 1) (val % 128 * 2 ^ s + r) (s + 7)
unfolding decode_loop
more_byte val s r offset bytes l u h k =
    let byte = 128 + val % 128 in
    let a : bit_and byte 0x7F ≡ val % 128 = omega (arith, and_low 7 byte) in
    let b : (bit_and byte 0x80 == 0) ≡ false = ground (arith, and_bit 7 byte) in
    let c : leb 64 (s + 7) ≡ false = ground arith in
    rw (varint_byte_more val l, a, b, c)
      (rw (joined s r (val % 128) h (omega (arith, weights val (2 ^ s)))) refl)

pub decode_loop-encode_loop :
    (fuel val s r offset : ℕ) (rest : List ℕ)
    → s + 7 * fuel ≡ 63
    → r < 2 ^ s
    → val * 2 ^ s + r < 2 ^ 64
    → decode_loop (encode_loop fuel val [] ++ rest) offset r s
      ≡ ok (val * 2 ^ s + r, offset + length (encode_loop fuel val []))
unfolding encode_loop
decode_loop-encode_loop zero val s r offset rest e h k =
    let p : 2 ^ s ≡ 2 ^ 63 = ap (λ n. 2 ^ n) (let e' : s ≡ 63 = omega arith in e') in
    last_byte val s r offset rest (let q : val * 2 ^ 63 + r < 2 ^ 64 = rw p at k in omega arith) h k
decode_loop-encode_loop (suc fuel) val s r offset rest e h k =
    elim (Bool-cases (val / 2 ^ 7 == 0)) [
      | inl f ↦ rw f (last_byte val s r offset rest (ground arith) h k)
      | inr f ↦
          let q = val / 2 ^ 7 in
          let w = weights val (2 ^ s) in
          rw (f, encode_loop-append fuel q (varint_byte val ∷ []))
            (more_byte val s r offset (encode_loop fuel q [] ++ rest) (ground arith) (omega arith) h
                k
              ∙ decode_loop-encode_loop fuel q (s + 7) (val % 128 * 2 ^ s + r) (offset + 1) rest
                  (omega arith)
                  (omega (
                    arith,
                    pow_seven s,
                    mul-le-mul_right (2 ^ s) (let m : val % 128 ≤ 127 = omega arith in m),
                  ))
                  (let x : q * (128 * 2 ^ s) + (val % 128 * 2 ^ s + r) < 2 ^ 64 =
                      omega (arith, w) in
                    rw (← pow_seven s) at x)
              ∙ ap₂ (λ n c. ok (n, c)) (rw (pow_seven s) (omega (arith, w))) (omega arith))
    ]

-- Round trip: the bytes that `encode_uvarint` writes for a u64 decode, whatever follows them, to that
-- number, and exactly those bytes are consumed.
pub decode_uvarint-encode_uvarint :
    (val : ℕ) (rest : List ℕ)
    → val < 2 ^ 64
    → decode_uvarint (encode_uvarint val [] ++ rest) ≡ ok (val, length (encode_uvarint val []))
unfolding decode_uvarint encode_uvarint
decode_uvarint-encode_uvarint val rest h =
    decode_loop-encode_loop 9 val 0 0 0 rest refl (omega arith) (omega arith) ∙ ground arith
