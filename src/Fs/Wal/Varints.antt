-- ===== src/Fs/Wal/Varints.antt =====
-- The varints and the words of crates/boa_idb_fs/src/wal.rs: its varint loops are those of the
-- structured clone codec.
use Prim.Native.Nat.{bit_and, bit_or}
use native.Mathlib.Nat.{pow-suc}
use indexed_db_boa.Clone.Varint.{
  varint_byte, encode_loop, encode_uvarint, decode_loop, decode_uvarint,
}
use indexed_db_boa.Clone.Varint.RoundTrip.{encode_loop-append, decode_uvarint-encode_uvarint}
use indexed_db_boa.Fs.Wal.{le_bytes, write_loop, write_varint}
use indexed_db_boa.Fs.Wal.Decode.{from_le_bytes, read_loop, read_varint}
use indexed_db_boa.Base.{
  ℕ, zero, suc, ◌+◌, ◌*◌, ◌/◌, ◌%◌, ◌^◌, ◌<◌, ◌≡◌, refl, sym, ap, ◌∙◌, false, List, [], ◌∷◌, ◌++◌,
  ok, ok_inj, length, drop, drop-append, leb, ◌==◌, arith, Bool-cases, inl, inr,
}

write_loop_lem : (fuel v : ℕ) → write_loop fuel v ≡ encode_loop fuel v []
unfolding write_loop encode_loop varint_byte
write_loop_lem zero v = elim (Bool-cases (v / 2 ^ 7 == 0)) [ inl e ↦ rw e refl | inr e ↦ rw e refl ]
write_loop_lem (suc fuel) v = elim (Bool-cases (v / 2 ^ 7 == 0)) [
  | inl e ↦ rw e refl
  | inr e ↦ rw e (
      ap (◌∷◌ (bit_or (bit_and v 0x7F % 256) 0x80)) (write_loop_lem fuel (v / 2 ^ 7))
      ∙ sym (encode_loop-append fuel (v / 2 ^ 7) (bit_or (bit_and v 0x7F % 256) 0x80 ∷ [])))
]

pub write_varint_lem : (v : ℕ) → write_varint v ≡ encode_uvarint v []
unfolding write_varint encode_uvarint
write_varint_lem v = write_loop_lem 9 v

-- What the decoder of the clone codec accepts, this reader accepts, with the rest of the bytes.
read_loop-decode_loop :
    (bytes : List ℕ) (offset r s v n : ℕ)
    → s < 64
    → decode_loop bytes offset r s ≡ ok (v, n)
    → (k : ℕ) × (n ≡ offset + k) × (read_loop bytes r s ≡ ok (v, drop k bytes))
unfolding decode_loop read_loop
read_loop-decode_loop [] offset r s v n l e = ground arith
read_loop-decode_loop (b ∷ bytes) offset r s v n l e = elim (Bool-cases (bit_and b 0x80 == 0)) [
  | inl f ↦
      let e' = ok_inj (rw f at e) in
      (
        1,
        sym (ap (λ p. p.1) e'),
        rw (f, (let g : leb 64 s ≡ false = ground arith in g))
            (ap (λ x. ok (x, bytes)) (ap (λ p. p.0) e')),
      )
  | inr f ↦ elim (Bool-cases (leb 64 (s + 7))) [
    | inl g ↦ let e' = rw (f, g) at e in ground arith
    | inr g ↦
        let (k, c, d) =
          read_loop-decode_loop bytes (offset + 1) _ (s + 7) v n (ground arith) (rw (f, g) at e) in
        (suc k, omega (arith, c), rw (f, (let g : leb 64 s ≡ false = ground arith in g)) d)
  ]
]

pub read_varint-write_varint :
    (v : ℕ) (rest : List ℕ) → v < 2 ^ 64 → read_varint (write_varint v ++ rest) ≡ ok (v, rest)
unfolding read_varint decode_uvarint
read_varint-write_varint v rest h =
    let bytes = encode_uvarint v [] in
    let (k, c, d) =
      read_loop-decode_loop (bytes ++ rest) 0 0 0 v (length bytes) (omega arith)
        (decode_uvarint-encode_uvarint v rest h) in
    rw write_varint_lem (
      d
      ∙ ap (λ r. ok (v, r))
          (ap (λ n. drop n (bytes ++ rest)) (let e : k ≡ length bytes = omega (arith, c) in e)
            ∙ drop-append bytes rest))

pub length-le_bytes : (width v : ℕ) → length (le_bytes width v) ≡ width
unfolding le_bytes
length-le_bytes zero v = refl
length-le_bytes (suc width) v = ap suc (length-le_bytes width (v / 256))

pub from_le_bytes-le_bytes : (width v : ℕ) → v < 256 ^ width → from_le_bytes (le_bytes width v) ≡ v
unfolding le_bytes from_le_bytes
from_le_bytes-le_bytes zero v h = unfold le_bytes from_le_bytes in omega arith
from_le_bytes-le_bytes (suc width) v h = omega (
  arith,
  from_le_bytes-le_bytes width (v / 256)
      (let h' : v < 256 ^ width * 256 = rw pow-suc at h in omega arith),
)
