-- ===== src/Fs/Manifest.antt =====
-- The manifest that names the live segments and the active log: crates/boa_idb_fs/src/meta.rs.
pub mod RoundTrip
use indexed_db_boa.Backend.{BackendError, corrupted}
use indexed_db_boa.Fs.Wal.{le_bytes}
use indexed_db_boa.Fs.Wal.Decode.{from_le_bytes}
use indexed_db_boa.Fs.Meta.{encode_all}
use indexed_db_boa.Fs.Segment.{seal, checked_body}
use indexed_db_boa.Base.{
  ℕ, zero, suc, ◌+◌, ◌%◌, ◌^◌, not, List, [], ◌∷◌, ◌++◌, Result, ok, err, ◌>>=◌, ltb, ◌==◌, length,
  take, drop, if◌then◌else◌,
}

pub record ManifestData : Type 0 where
  pub manifest_seq : ℕ
  pub wal_seq : ℕ
  pub segments : List ℕ

-- `MANIFEST_MAGIC`, the bytes IMAN in little-endian order.
abbrev pub manifest_magic : ℕ
manifest_magic = 0x4E414D49

abbrev pub manifest_version : ℕ
manifest_version = 1

-- The bytes in front of the segments.
unfoldable pub manifest_header : ℕ → ℕ → ℕ → List ℕ
manifest_header manifest_seq wal_seq n =
    le_bytes 4 manifest_magic
    ++ (le_bytes 4 manifest_version
        ++ (le_bytes 8 manifest_seq ++ (le_bytes 8 wal_seq ++ le_bytes 4 (n % 2 ^ 32))))

unfoldable pub encode_manifest : ManifestData → List ℕ
encode_manifest d = seal (
    manifest_header d.manifest_seq d.wal_seq (length d.segments)
    ++ encode_all (le_bytes 8) d.segments)

-- The loop, with the bytes from `pos` on.
unfoldable pub read_segments : ℕ → List ℕ → Result BackendError (List ℕ × List ℕ)
read_segments zero rest = ok ([], rest)
read_segments (suc n) rest =
    let more = read_segments n (drop 8 rest) >>= λ (segments, rest').
    ok (from_le_bytes (take 8 rest) ∷ segments, rest') in
    if ltb (length rest) 8 then err corrupted else more

unfoldable pub decode_manifest : List ℕ → Result BackendError ManifestData
decode_manifest bytes =
    if ltb (length bytes) (4 + 4 + 8 + 8 + 4 + 4)
    then err corrupted
    else (checked_body bytes >>= (λ body.
        if not (from_le_bytes (take 4 body) == manifest_magic)
        then err corrupted
        else if not (from_le_bytes (take 4 (drop 4 body)) == manifest_version)
        then err corrupted
        else (read_segments (from_le_bytes (take 4 (drop 24 body))) (drop 28 body)
            >>= λ (segments, rest).
                let d : ManifestData = record {
                  manifest_seq = from_le_bytes (take 8 (drop 8 body));
                  wal_seq = from_le_bytes (take 8 (drop 16 body));
                  segments = segments;
                } in
                if not (length rest == 0) then err corrupted else ok d)))
