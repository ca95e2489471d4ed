-- ===== src/Fs/Meta/RoundTrip.antt =====
-- What crates/boa_idb_fs/src/meta.rs writes of a database's metadata, it reads back.
use indexed_db_boa.Backend.{
  KeyPath, empty, single, array, IndexMeta, StoreMeta, DatabaseMeta, BackendError,
}
use indexed_db_boa.Fs.Wal.{le_bytes}
use indexed_db_boa.Fs.Wal.Varints.{length-le_bytes, from_le_bytes-le_bytes}
use indexed_db_boa.Fs.Meta.{
  meta_magic, meta_version, encode_all, encode_vec, write_utf16, encode_bool, encode_key_path,
  encode_index, encode_store, encode_meta, read_take, read_u8, read_word, read_bool, units_of,
  read_utf16, read_all, read_vec, decode_key_path, decode_index, decode_store, decode_fields,
  decode_meta,
}
use indexed_db_boa.Base.{
  ℕ, ◌*◌, ◌%◌, ◌^◌, ◌<◌, ◌≡◌, refl, sym, ap, ap₂, ◌∙◌, Bool, true, false, List, [], ◌∷◌, ◌++◌,
  append_assoc, append-nil, Result, ok, ltb, length, take, drop, take-append, drop-append,
  length-append, All, arith,
}

-- A reader takes these bytes for this value, whatever follows.
abbrev pub Reads {ℓ} :
    {A : Type ℓ} → (List ℕ → Result BackendError (A × List ℕ)) → List ℕ → A → Type ℓ
Reads read bytes a = (rest : List ℕ) → read (bytes ++ rest) ≡ ok (a, rest)

pub read_take-append : (n : ℕ) (bytes : List ℕ) → n ≡ length bytes → Reads (read_take n) bytes bytes
unfolding read_take
read_take-append n bytes e rest =
    let l : ltb (length (bytes ++ rest)) n ≡ false = ground (arith, length-append bytes rest, e) in
    rw l (
      ap₂ (λ x y. ok (x, y)) (ap (λ (k : ℕ). take k (bytes ++ rest)) e ∙ take-append bytes rest)
        (ap (λ (k : ℕ). drop k (bytes ++ rest)) e ∙ drop-append bytes rest))

pub read_word-le_bytes :
    (width v : ℕ) → v < 256 ^ width → Reads (read_word width) (le_bytes width v) v
unfolding read_word
read_word-le_bytes width v h rest =
    rw (read_take-append width (le_bytes width v) (sym (length-le_bytes width v)) rest)
      (ap (λ n. ok (n, rest)) (from_le_bytes-le_bytes width v h))

read_bool-encode_bool : (b : Bool) → Reads read_bool (encode_bool b) b
unfolding read_bool encode_bool read_u8
read_bool-encode_bool true rest = refl
read_bool-encode_bool false rest = refl

module _ {ℓ} {A : Type ℓ} (encode : A → List ℕ) (read : List ℕ → Result BackendError (A × List ℕ))
    (Good : A → Type 0) (reads : (x : A) → Good x → Reads read (encode x) x) where
  read_all-encode_all :
      (xs : List A) → All Good xs → Reads (read_all read (length xs)) (encode_all encode xs) xs
  unfolding read_all encode_all
  read_all-encode_all [] h rest = refl
  read_all-encode_all (x ∷ xs) h rest =
      rw (append_assoc, reads x h.0 (encode_all encode xs ++ rest), read_all-encode_all xs h.1 rest)
        refl

  pub read_vec-encode_vec :
      (xs : List A)
      → length xs < 2 ^ 32
      → All Good xs
      → Reads (read_vec read) (encode_vec encode xs) xs
  unfolding read_vec encode_vec
  read_vec-encode_vec xs l h rest =
      let e : length xs % 2 ^ 32 ≡ length xs = omega arith in
      rw
        (
          e,
          append_assoc,
          read_word-le_bytes 4 (length xs) (omega arith) (encode_all encode xs ++ rest),
        )
        (read_all-encode_all xs h rest)

abbrev pub IsText : List ℕ → Type 0
IsText s = length s < 2 ^ 32 × All (λ u. u < 2 ^ 16) s

length-units : (s : List ℕ) → length (encode_all (le_bytes 2) s) ≡ length s * 2
unfolding encode_all
length-units [] = omega arith
length-units (u ∷ s) = omega (
  arith,
  length-append (le_bytes 2 u) (encode_all (le_bytes 2) s),
  length-le_bytes 2 u,
  length-units s,
)

units_of-units : (s : List ℕ) → All (λ u. u < 2 ^ 16) s → units_of (encode_all (le_bytes 2) s) ≡ s
unfolding units_of encode_all le_bytes
units_of-units [] h = refl
units_of-units (u ∷ s) h =
    ap₂ ◌∷◌ (let e = from_le_bytes-le_bytes 2 u (omega (arith, h.0)) in unfold le_bytes in e)
      (units_of-units s h.1)

read_utf16-write_utf16 : (s : List ℕ) → IsText s → Reads read_utf16 (write_utf16 s) s
unfolding read_utf16 write_utf16 encode_vec
read_utf16-write_utf16 s h rest =
    let units = encode_all (le_bytes 2) s in
    let e : length s % 2 ^ 32 ≡ length s = omega (arith, h.0) in
    rw
      (
        e,
        append_assoc,
        read_word-le_bytes 4 (length s) (omega (arith, h.0)) (units ++ rest),
        read_take-append (length s * 2) units (sym (length-units s)) rest,
        units_of-units s h.1,
      )
      refl

abbrev pub IsKeyPath : KeyPath → Type 0
IsKeyPath empty = Unit {0}
IsKeyPath (single s) = IsText s
IsKeyPath (array items) = length items < 2 ^ 32 × All IsText items

decode_key_path-encode_key_path :
    (path : KeyPath) → IsKeyPath path → Reads decode_key_path (encode_key_path path) path
unfolding decode_key_path encode_key_path read_u8
decode_key_path-encode_key_path empty h rest = refl
decode_key_path-encode_key_path (single s) h rest = rw (read_utf16-write_utf16 s h rest) refl
decode_key_path-encode_key_path (array items) h rest =
    rw (read_vec-encode_vec write_utf16 read_utf16 IsText read_utf16-write_utf16 items h.0 h.1 rest)
      refl

abbrev pub IsIndex : IndexMeta → Type 0
IsIndex index =
    index.id < 2 ^ 64 × (index.store_id < 2 ^ 64) × IsText index.name × IsKeyPath index.key_path

decode_index-encode_index :
    (index : IndexMeta) → IsIndex index → Reads decode_index (encode_index index) index
unfolding decode_index encode_index
decode_index-encode_index index h rest =
    rw
      (
        append_assoc,
        read_word-le_bytes 8 index.id h.0,
        append_assoc,
        read_word-le_bytes 8 index.store_id h.1,
        append_assoc,
        read_utf16-write_utf16 index.name h.2,
        append_assoc,
        decode_key_path-encode_key_path index.key_path h.3,
        append_assoc,
        read_bool-encode_bool index.unique,
        append_assoc,
        read_bool-encode_bool index.multi_entry,
        read_bool-encode_bool index.deleted,
      )
      refl

abbrev pub IsStore : StoreMeta → Type 0
IsStore store =
    store.id < 2 ^ 64
    × IsText store.name
    × IsKeyPath store.key_path
    × (store.key_gen < 2 ^ 64)
    × (length store.indexes < 2 ^ 32)
    × All IsIndex store.indexes

decode_store-encode_store :
    (store : StoreMeta) → IsStore store → Reads decode_store (encode_store store) store
unfolding decode_store encode_store
decode_store-encode_store store h rest =
    rw
      (
        append_assoc,
        read_word-le_bytes 8 store.id h.0,
        append_assoc,
        read_utf16-write_utf16 store.name h.1,
        append_assoc,
        decode_key_path-encode_key_path store.key_path h.2,
        append_assoc,
        read_bool-encode_bool store.auto_increment,
        append_assoc,
        read_word-le_bytes 8 store.key_gen h.3,
        append_assoc,
        read_bool-encode_bool store.deleted,
        read_vec-encode_vec encode_index decode_index IsIndex decode_index-encode_index
            store.indexes h.4 h.5,
      )
      refl

-- Ids, versions, lengths and code units within the words that hold them.
abbrev pub IsMeta : DatabaseMeta → Type 0
IsMeta db =
    IsText db.name
    × (db.version < 2 ^ 64)
    × (db.next_store_id < 2 ^ 64)
    × (db.next_index_id < 2 ^ 64)
    × (length db.stores < 2 ^ 32)
    × All IsStore db.stores

-- Round trip of the metadata: what `encode_meta` writes of a database whose ids, versions, lengths and
-- code units fit in the words that hold them, `decode_meta` reads back.
pub decode_meta-encode_meta : (db : DatabaseMeta) → IsMeta db → decode_meta (encode_meta db) ≡ ok db
unfolding decode_meta encode_meta decode_fields
decode_meta-encode_meta db h =
    let stores : read_vec decode_store (encode_vec encode_store db.stores) ≡ ok (db.stores, []) =
      rw append-nil at (
        read_vec-encode_vec encode_store decode_store IsStore decode_store-encode_store db.stores
          h.4 h.5 []) in
    rw
      (
        read_word-le_bytes 4 meta_magic (omega arith),
        read_word-le_bytes 4 meta_version (omega arith),
        read_utf16-write_utf16 db.name h.0,
        read_word-le_bytes 8 db.version h.1,
        read_word-le_bytes 8 db.next_store_id h.2,
        read_word-le_bytes 8 db.next_index_id h.3,
        stores,
      )
      refl
