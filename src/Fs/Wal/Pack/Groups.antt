-- ===== src/Fs/Wal/Pack/Groups.antt =====
-- The groups of the packer in crates/boa_idb_fs/src/wal.rs: its running lengths are those of the
-- encoder, and no operation is lost, reordered or too long for its frame.
use indexed_db_boa.Fs.Wal.{
  WalOp, put, delete, clear, index_put, index_delete, key_gen_set, meta_replace, payload_too_large,
  write_loop, write_varint, write_bytes, encode_op, encode_ops, encode_payload, le_bytes,
}
use indexed_db_boa.Fs.Wal.Varints.{length-le_bytes}
use indexed_db_boa.Fs.Wal.Pack.{
  varint_len_loop, varint_len, bytes_len, op_encoded_len, payload_len, Packer, pack_op,
}
use indexed_db_boa.Base.{
  ℕ, zero, suc, ◌+◌, ◌/◌, ◌^◌, ◌<◌, ◌≤◌, ◌≡◌, refl, sym, ap, ◌∙◌, false, List, [], ◌∷◌, ◌++◌,
  append_assoc, append-nil, ok, err, length, All, All-append, leb, ltb, ◌==◌, arith, Bool-cases,
  inl, inr, length-append, ◌⊎◌, concat, concat-append,
}

length-write_loop : (fuel v : ℕ) → varint_len_loop fuel v ≡ length (write_loop fuel v)
unfolding varint_len_loop write_loop
length-write_loop zero v = refl
length-write_loop (suc fuel) v = ground (arith, length-write_loop fuel (v / 2 ^ 7))

pub length-write_varint : (v : ℕ) → varint_len v ≡ length (write_varint v)
unfolding varint_len write_varint
length-write_varint v = length-write_loop 9 v

varint_len_loop_pos : (fuel v : ℕ) → 1 ≤ varint_len_loop fuel v
unfolding varint_len_loop
varint_len_loop_pos zero v = omega arith
varint_len_loop_pos (suc fuel) v = ground arith

varint_len_pos : (v : ℕ) → 1 ≤ varint_len v
unfolding varint_len
varint_len_pos v = varint_len_loop_pos 9 v

length-write_bytes : (bytes : List ℕ) → bytes_len bytes ≡ length (write_bytes bytes)
unfolding bytes_len write_bytes
length-write_bytes bytes =
    omega
      (arith, length-append (write_varint (length bytes)) bytes, length-write_varint (length bytes))

length-write_entry :
    (id : ℕ) (key value : List ℕ)
    → varint_len id + bytes_len key + bytes_len value
      ≡ length (write_varint id ++ write_bytes key ++ write_bytes value)
length-write_entry id key value = omega (
  arith,
  length-append (write_varint id ++ write_bytes key) (write_bytes value),
  length-append (write_varint id) (write_bytes key),
  length-write_varint id,
  length-write_bytes key,
  length-write_bytes value,
)

-- The packer's length of an operation is the number of bytes that the encoder writes for it.
pub op_encoded_len-encode_op : (op : WalOp) → op_encoded_len op ≡ length (encode_op op)
unfolding op_encoded_len encode_op
op_encoded_len-encode_op (put store key value) = omega (arith, length-write_entry store key value)
op_encoded_len-encode_op (delete store key) = omega (
  arith,
  length-append (write_varint store) (write_bytes key),
  length-write_varint store,
  length-write_bytes key,
)
op_encoded_len-encode_op (clear store) = omega (arith, length-write_varint store)
op_encoded_len-encode_op (index_put index idx_key primary_key) =
    omega (arith, length-write_entry index idx_key primary_key)
op_encoded_len-encode_op (index_delete index idx_key primary_key) =
    omega (arith, length-write_entry index idx_key primary_key)
op_encoded_len-encode_op (key_gen_set store value_bits) = omega (
  arith,
  length-append (write_varint store) (le_bytes 8 value_bits),
  length-write_varint store,
  length-le_bytes 8 value_bits,
)
op_encoded_len-encode_op (meta_replace bytes) = omega (arith, length-write_bytes bytes)

encode_ops-append : (xs ys : List WalOp) → encode_ops (xs ++ ys) ≡ encode_ops xs ++ encode_ops ys
unfolding encode_ops
encode_ops-append [] ys = refl
encode_ops-append (x ∷ xs) ys =
    ap (◌++◌ (encode_op x)) (encode_ops-append xs ys)
    ∙ sym (append_assoc (encode_op x) (encode_ops xs) (encode_ops ys))

-- A group that a frame can carry.
abbrev pub Fits : ℕ → List WalOp → Type 0
Fits max group = 0 < length group × (payload_len group ≤ max)

abbrev pub Packed : ℕ → List WalOp → Packer → Type 0
Packed max done p =
    concat p.groups ++ p.current ≡ done
    × All (Fits max) p.groups
    × (p.current_len ≡ length (encode_ops p.current))
    × (0 < length p.current → payload_len p.current ≤ max)

payload_len_snoc :
    (ops : List WalOp) (op : WalOp)
    → payload_len (ops ++ op ∷ [])
      ≡ length (encode_ops ops) + op_encoded_len op + varint_len (length ops + 1)
unfolding payload_len encode_payload
payload_len_snoc ops op =
    let e = length-append ops (op ∷ []) in
    rw (e, length-append, encode_ops-append, length-append)
      (omega (
        arith,
        length-write_varint (length ops + 1),
        op_encoded_len-encode_op op,
        (let n : length (encode_ops (op ∷ [])) ≡ length (encode_op op) =
              unfold encode_ops in ap length (append-nil (encode_op op)) in
            n),
      ))

encode_ops_single : (op : WalOp) → length (encode_ops (op ∷ [])) ≡ op_encoded_len op
unfolding encode_ops
encode_ops_single op = ap length (append-nil (encode_op op)) ∙ sym (op_encoded_len-encode_op op)

payload_len_single : (op : WalOp) → payload_len (op ∷ []) ≡ op_encoded_len op + 1
payload_len_single op =
    payload_len_snoc [] op ∙ (unfold encode_ops varint_len varint_len_loop in omega arith)

encode_ops_snoc :
    (ops : List WalOp) (op : WalOp)
    → length (encode_ops (ops ++ op ∷ [])) ≡ length (encode_ops ops) + op_encoded_len op
encode_ops_snoc ops op = rw (encode_ops-append, length-append) (omega (arith, encode_ops_single op))

-- What one round does: it keeps what is packed, or the operation fits in no frame.
abbrev pub Step : ℕ → List WalOp → Packer → WalOp → Type 0
Step max done p op =
    ((p' : Packer) × (pack_op max p op ≡ ok p')
      × Packed max (done ++ op ∷ []) p'
      × (op_encoded_len op + 1 ≤ max))
    ⊎ (max < op_encoded_len op + 1
        × (pack_op max p op ≡ err (payload_too_large (op_encoded_len op + 1))))

module _ (max : ℕ) (done : List WalOp) (groups : List (List WalOp)) (op : WalOp) where
  first_op :
      (len : ℕ)
      → Packed max done (record { groups = groups; current = []; current_len = len })
      → Step max done (record { groups = groups; current = []; current_len = len }) op
  unfolding pack_op
  first_op len h = elim (Bool-cases (ltb max (op_encoded_len op + 1))) [
    | inl e ↦ inr (ground arith, rw e refl)
    | inr e ↦ inl (
      record { groups = groups; current = op ∷ []; current_len = op_encoded_len op },
      rw e refl,
      (
        ap (λ xs. xs ++ op ∷ []) (sym (append-nil (concat groups)) ∙ h.0),
        h.1,
        sym (encode_ops_single op),
        λ _. ground (arith, payload_len_single op),
      ),
      ground arith,
    )
  ]

  -- The operation opens the next group.
  next_group :
      (current : List WalOp) (len : ℕ)
      → 0 < length current
      → Packed max done (record { groups = groups; current = current; current_len = len })
      → op_encoded_len op + 1 ≤ max
      → Packed max (done ++ op ∷ []) (record {
        groups = groups ++ current ∷ [];
        current = op ∷ [];
        current_len = op_encoded_len op;
      })
  next_group current len n h l = (
    ap (λ xs. xs ++ op ∷ [])
        (concat-append groups (current ∷ [])
          ∙ ap (◌++◌ (concat groups)) (append-nil current)
          ∙ h.0),
    All-append (Fits max) groups (current ∷ []) h.1 ((n, h.3 n), tt),
    sym (encode_ops_single op),
    λ _. omega (arith, payload_len_single op),
  )

  -- It joins the current one.
  join_group :
      (current : List WalOp) (len : ℕ)
      → Packed max done (record { groups = groups; current = current; current_len = len })
      → len + op_encoded_len op + varint_len (length current + 1) ≤ max
      → Packed max (done ++ op ∷ []) (record {
        groups = groups;
        current = current ++ op ∷ [];
        current_len = len + op_encoded_len op;
      })
  join_group current len h l = (
    sym (append_assoc (concat groups) current (op ∷ [])) ∙ ap (λ xs. xs ++ op ∷ []) h.0,
    h.1,
    omega (arith, encode_ops_snoc current op, h.2),
    λ _. omega (arith, payload_len_snoc current op, h.2),
  )

  later_op :
      (current : List WalOp) (len : ℕ)
      → 0 < length current
      → Packed max done (record { groups = groups; current = current; current_len = len })
      → Step max done (record { groups = groups; current = current; current_len = len }) op
  unfolding pack_op
  later_op current len n h =
      let z : (length current == 0) ≡ false = ground arith in
      elim (Bool-cases (leb (len + op_encoded_len op + varint_len (length current + 1)) max)) [
        | inl e ↦ inl (
          _,
          rw (z, e) refl,
          join_group current len h (ground arith),
          ground (arith, varint_len_pos (length current + 1)),
        )
        | inr e ↦ elim (Bool-cases (ltb max (op_encoded_len op + 1))) [
          | inl f ↦ inr (ground arith, rw (z, e, f) refl)
          | inr f ↦
              inl (_, rw (z, e, f) refl, next_group current len n h (ground arith), ground arith)
        ]
      ]

  pub pack_op-Packed :
      (current : List WalOp) (len : ℕ)
      → Packed max done (record { groups = groups; current = current; current_len = len })
      → Step max done (record { groups = groups; current = current; current_len = len }) op
  pack_op-Packed [] len h = first_op len h
  pack_op-Packed (c ∷ cs) len h = later_op (c ∷ cs) len (omega arith) h
