-- ===== src/Fs/Manifest/RoundTrip.antt =====
-- What crates/boa_idb_fs/src/meta.rs writes of a manifest, it reads back.
use indexed_db_boa.Fs.Wal.{le_bytes}
use indexed_db_boa.Fs.Wal.Decode.{from_le_bytes}
use indexed_db_boa.Fs.Wal.Varints.{length-le_bytes, from_le_bytes-le_bytes}
use indexed_db_boa.Fs.Meta.{encode_all}
use indexed_db_boa.Fs.Segment.{seal}
use indexed_db_boa.Fs.Segment.RoundTrip.{length-seal, checked_body-seal}
use indexed_db_boa.Fs.Manifest.{
  ManifestData, manifest_magic, manifest_version, manifest_header, encode_manifest, read_segments,
  decode_manifest,
}
use indexed_db_boa.Base.{
  ℕ, ◌%◌, ◌^◌, ◌<◌, ◌≡◌, refl, false, List, [], ◌∷◌, ◌++◌, ok, ltb, length, take, drop,
  length-append, All, arith,
}

read_segments-encode_all :
    (seqs : List ℕ)
    → All (λ n. n < 2 ^ 64) seqs
    → read_segments (length seqs) (encode_all (le_bytes 8) seqs) ≡ ok (seqs, [])
unfolding read_segments encode_all
read_segments-encode_all [] h = refl
read_segments-encode_all (n ∷ seqs) h =
    let rest = encode_all (le_bytes 8) seqs in
    let l : ltb (length (le_bytes 8 n ++ rest)) 8 ≡ false =
      ground (arith, length-append (le_bytes 8 n) rest, length-le_bytes 8 n) in
    let t : take 8 (le_bytes 8 n ++ rest) ≡ le_bytes 8 n = unfold le_bytes in refl in
    let d : drop 8 (le_bytes 8 n ++ rest) ≡ rest = unfold le_bytes in refl in
    rw (l, t, d, from_le_bytes-le_bytes 8 n h.0, read_segments-encode_all seqs h.1) refl

abbrev pub IsManifest : ManifestData → Type 0
IsManifest d =
    d.manifest_seq < 2 ^ 64
    × (d.wal_seq < 2 ^ 64)
    × (length d.segments < 2 ^ 32)
    × All (λ n. n < 2 ^ 64) d.segments

-- Round trip of a manifest: what `encode_manifest` writes of sequence numbers that fit in 64 bits,
-- fewer than 2^32 of them, `decode_manifest` reads back.
pub decode_manifest-encode_manifest :
    (d : ManifestData) → IsManifest d → decode_manifest (encode_manifest d) ≡ ok d
unfolding decode_manifest encode_manifest
decode_manifest-encode_manifest d h =
    let n = length d.segments in
    let header = manifest_header d.manifest_seq d.wal_seq n in
    let tail = encode_all (le_bytes 8) d.segments in
    let body = header ++ tail in
    let size : length header ≡ 28 = unfold manifest_header le_bytes in refl in
    let l : ltb (length (seal body)) 32 ≡ false =
      ground (arith, length-seal body, length-append header tail) in
    let magic : from_le_bytes (take 4 body) ≡ manifest_magic =
      unfold manifest_header le_bytes from_le_bytes in refl in
    let ver : from_le_bytes (take 4 (drop 4 body)) ≡ manifest_version =
      unfold manifest_header le_bytes from_le_bytes in refl in
    let t1 : take 8 (drop 8 body) ≡ le_bytes 8 d.manifest_seq =
      unfold manifest_header le_bytes in refl in
    let t2 : take 8 (drop 16 body) ≡ le_bytes 8 d.wal_seq =
      unfold manifest_header le_bytes in refl in
    let t3 : take 4 (drop 24 body) ≡ le_bytes 4 (n % 2 ^ 32) =
      unfold manifest_header le_bytes in refl in
    let t4 : drop 28 body ≡ tail = unfold manifest_header le_bytes in refl in
    let m : n % 2 ^ 32 ≡ n = omega (arith, h.2) in
    rw
      (
        l,
        checked_body-seal body,
        magic,
        ver,
        t1,
        t2,
        t3,
        t4,
        from_le_bytes-le_bytes 8 d.manifest_seq h.0,
        from_le_bytes-le_bytes 8 d.wal_seq h.1,
        from_le_bytes-le_bytes 4 (n % 2 ^ 32) (omega arith),
        m,
        read_segments-encode_all d.segments h.3,
      )
      refl
