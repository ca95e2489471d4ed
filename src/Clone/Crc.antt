-- ===== src/Clone/Crc.antt =====
-- CRC-32/Castagnoli: crates/boa_idb_core/src/clone/crc32c.rs. The register is a word of 32 bits.
use Prim.Native.Nat.{bit_and, bit_xor}
use indexed_db_boa.Base.{
  ℕ, zero, suc, ◌-◌, ◌/◌, ◌^◌, ◌<◌, List, [], ◌∷◌, ◌==◌, if◌then◌else◌, arith,
}

-- `POLY_REFLECTED`
abbrev poly_reflected : ℕ
poly_reflected = 0x82F63B78

-- The inner loop of `build_table`, with the rounds that are left.
unfoldable pub table_rounds : ℕ → ℕ → ℕ
table_rounds zero crc = crc
table_rounds (suc j) crc =
    let crc' = if bit_and crc 1 == 1 then bit_xor (crc / 2) poly_reflected else crc / 2 in
    table_rounds j crc'

-- Entry `i` of `TABLE`.
unfoldable pub table_entry : ℕ → ℕ
table_entry i = table_rounds 8 i

-- The loop of `crc32c`.
unfoldable pub crc_loop : List ℕ → ℕ → ℕ
crc_loop [] crc = crc
crc_loop (b ∷ data') crc =
    let idx = bit_and (bit_xor crc b) 0xFF in
    crc_loop data' (bit_xor (crc / 2 ^ 8) (table_entry idx))

unfoldable pub crc32c : List ℕ → ℕ
crc32c bytes = 2 ^ 32 - 1 - crc_loop bytes 0xFFFF_FFFF

pub crc32c-IsU32 : (bytes : List ℕ) → crc32c bytes < 2 ^ 32
unfolding crc32c
crc32c-IsU32 bytes = omega arith
