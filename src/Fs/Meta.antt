-- ===== src/Fs/Meta.antt =====
-- The metadata of a database as the bytes of meta.scf: crates/boa_idb_fs/src/meta.rs. A writer gives
-- the bytes it appends, and a reader the bytes that are left; an f64 is its bits.
pub mod RoundTrip
use indexed_db_boa.Backend.{
  KeyPath, empty, single, array, IndexMeta, StoreMeta, DatabaseMeta, BackendError, corrupted,
}
use indexed_db_boa.Fs.Wal.{le_bytes}
use indexed_db_boa.Fs.Wal.Decode.{from_le_bytes}
use indexed_db_boa.Base.{
  ℕ, zero, suc, ◌*◌, ◌%◌, ◌^◌, Bool, not, List, [], ◌∷◌, ◌++◌, Result, ok, err, ◌>>=◌, ltb, ◌==◌,
  length, take, drop, if◌then◌else◌,
}

-- `META_MAGIC`, the bytes IMET in little-endian order.
abbrev pub meta_magic : ℕ
meta_magic = 0x54454D49

abbrev pub meta_version : ℕ
meta_version = 1

-- The loop that writes the elements of a vector.
unfoldable pub encode_all {ℓ} : {A : Type ℓ} → (A → List ℕ) → List A → List ℕ
encode_all encode [] = []
encode_all encode (x ∷ xs) = encode x ++ encode_all encode xs

-- A vector's length as a u32, then its elements.
unfoldable pub encode_vec {ℓ} : {A : Type ℓ} → (A → List ℕ) → List A → List ℕ
encode_vec encode xs = le_bytes 4 (length xs % 2 ^ 32) ++ encode_all encode xs

unfoldable pub write_utf16 : List ℕ → List ℕ
write_utf16 s = encode_vec (le_bytes 2) s

-- `u8::from`
unfoldable pub encode_bool : Bool → List ℕ
encode_bool b = (if b then 1 else 0) ∷ []

unfoldable pub encode_key_path : KeyPath → List ℕ
encode_key_path empty = 0 ∷ []
encode_key_path (single s) = 1 ∷ write_utf16 s
encode_key_path (array items) = 2 ∷ encode_vec write_utf16 items

unfoldable pub encode_index : IndexMeta → List ℕ
encode_index index =
    le_bytes 8 index.id
    ++ (le_bytes 8 index.store_id
        ++ (write_utf16 index.name
            ++ (encode_key_path index.key_path
                ++ (encode_bool index.unique
                    ++ (encode_bool index.multi_entry ++ encode_bool index.deleted)))))

unfoldable pub encode_store : StoreMeta → List ℕ
encode_store store =
    le_bytes 8 store.id
    ++ (write_utf16 store.name
        ++ (encode_key_path store.key_path
            ++ (encode_bool store.auto_increment
                ++ (le_bytes 8 store.key_gen
                    ++ (encode_bool store.deleted ++ encode_vec encode_index store.indexes)))))

unfoldable pub encode_meta : DatabaseMeta → List ℕ
encode_meta db =
    le_bytes 4 meta_magic
    ++ (le_bytes 4 meta_version
        ++ (write_utf16 db.name
            ++ (le_bytes 8 db.version
                ++ (le_bytes 8 db.next_store_id
                    ++ (le_bytes 8 db.next_index_id ++ encode_vec encode_store db.stores)))))

-- `Reader::take`
unfoldable pub read_take : ℕ → List ℕ → Result BackendError (List ℕ × List ℕ)
read_take n r = if ltb (length r) n then err corrupted else ok (take n r, drop n r)

unfoldable pub read_u8 : List ℕ → Result BackendError (ℕ × List ℕ)
read_u8 [] = err corrupted
read_u8 (b ∷ r) = ok (b, r)

-- `Reader::u32` and `Reader::u64`, of 4 and 8 bytes.
unfoldable pub read_word : ℕ → List ℕ → Result BackendError (ℕ × List ℕ)
read_word width r = read_take width r >>= λ (bytes, r'). ok (from_le_bytes bytes, r')

unfoldable pub read_bool : List ℕ → Result BackendError (Bool × List ℕ)
read_bool r = read_u8 r >>= λ (b, r'). ok (not (b == 0), r')

-- `chunks_exact(2)`
unfoldable pub units_of : List ℕ → List ℕ
units_of [] = []
units_of (a ∷ []) = []
units_of (a ∷ b ∷ bytes) = from_le_bytes (a ∷ b ∷ []) ∷ units_of bytes

-- `Reader::utf16`
unfoldable pub read_utf16 : List ℕ → Result BackendError (List ℕ × List ℕ)
read_utf16 r =
    read_word 4 r
    >>= (λ (len, r'). read_take (len * 2) r' >>= λ (bytes, r''). ok (units_of bytes, r''))

-- The loop that reads the elements of a vector.
unfoldable pub read_all {ℓ} :
    {A : Type ℓ}
    → (List ℕ → Result BackendError (A × List ℕ))
    → ℕ
    → List ℕ
    → Result BackendError (List A × List ℕ)
read_all read zero r = ok ([], r)
read_all read (suc n) r =
    read r >>= (λ (x, r'). read_all read n r' >>= λ (xs, r''). ok (x ∷ xs, r''))

unfoldable pub read_vec {ℓ} :
    {A : Type ℓ}
    → (List ℕ → Result BackendError (A × List ℕ))
    → List ℕ
    → Result BackendError (List A × List ℕ)
read_vec read r = read_word 4 r >>= λ (n, r'). read_all read n r'

unfoldable pub decode_key_path : List ℕ → Result BackendError (KeyPath × List ℕ)
decode_key_path r = read_u8 r >>= λ (tag, r').
    let one = read_utf16 r' >>= λ (s, r''). ok (single s, r'') in
    let many = read_vec read_utf16 r' >>= λ (items, r''). ok (array items, r'') in
    if tag == 0
    then ok (empty, r')
    else if tag == 1
    then one
    else if tag == 2
    then many
    else err corrupted

unfoldable pub decode_index : List ℕ → Result BackendError (IndexMeta × List ℕ)
decode_index r0 = read_word 8 r0 >>= (λ (id, r1). read_word 8 r1 >>= (λ (store_id, r2).
    read_utf16 r2 >>= (λ (name, r3). decode_key_path r3 >>= (λ (key_path, r4).
      read_bool r4 >>= (λ (unique, r5). read_bool r5 >>= (λ (multi_entry, r6).
        read_bool r6 >>= λ (deleted, r7).
        let index : IndexMeta = record {
          id = id;
          store_id = store_id;
          name = name;
          key_path = key_path;
          unique = unique;
          multi_entry = multi_entry;
          deleted = deleted;
        } in
        ok (index, r7)))))))

unfoldable pub decode_store : List ℕ → Result BackendError (StoreMeta × List ℕ)
decode_store r0 = read_word 8 r0 >>= (λ (id, r1). read_utf16 r1 >>= (λ (name, r2).
    decode_key_path r2 >>= (λ (key_path, r3). read_bool r3 >>= (λ (auto_increment, r4).
      read_word 8 r4 >>= (λ (key_gen, r5). read_bool r5 >>= (λ (deleted, r6).
        read_vec decode_index r6 >>= λ (indexes, r7).
        let store : StoreMeta = record {
          id = id;
          name = name;
          key_path = key_path;
          auto_increment = auto_increment;
          key_gen = key_gen;
          indexes = indexes;
          deleted = deleted;
        } in
        ok (store, r7)))))))

-- The fields of the metadata after magic and version.
unfoldable pub decode_fields : List ℕ → Result BackendError (DatabaseMeta × List ℕ)
decode_fields r0 = read_utf16 r0 >>= (λ (name, r1). read_word 8 r1 >>= (λ (version, r2).
    read_word 8 r2 >>= (λ (next_store_id, r3). read_word 8 r3 >>= (λ (next_index_id, r4).
      read_vec decode_store r4 >>= λ (stores, r5).
      let db : DatabaseMeta = record {
        name = name;
        version = version;
        stores = stores;
        next_store_id = next_store_id;
        next_index_id = next_index_id;
      } in
      ok (db, r5)))))

unfoldable pub decode_meta : List ℕ → Result BackendError DatabaseMeta
decode_meta bytes = read_word 4 bytes >>= (λ (magic, r0).
    if not (magic == meta_magic)
    then err corrupted
    else (read_word 4 r0 >>= (λ (ver, r1).
        if not (ver == meta_version)
        then err corrupted
        else (decode_fields r1 >>= λ (db, r2).
            if not (length r2 == 0) then err corrupted else ok db))))
