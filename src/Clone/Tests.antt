-- ===== src/Clone/Tests.antt =====
-- Varints at concrete numbers.
use indexed_db_boa.Base.{◌≡◌, refl, [], ◌∷◌, ◌++◌, ok, length, arith}
use indexed_db_boa.Clone.Crc.{crc32c, crc_loop, table_entry, table_rounds}
use indexed_db_boa.Clone.Varint.{encode_uvarint, encode_loop, varint_byte, decode_uvarint}
use indexed_db_boa.Clone.Varint.RoundTrip.{decode_uvarint-encode_uvarint}

encode_300 : encode_uvarint 300 [] ≡ 0xAC ∷ 0x02 ∷ []
unfolding encode_uvarint encode_loop varint_byte
encode_300 = refl

decode_uvarint-encode_uvarint_example :
    decode_uvarint (encode_uvarint 0xFFFF_FFFF_FFFF_FFFF [] ++ 7 ∷ [])
    ≡ ok (0xFFFF_FFFF_FFFF_FFFF, length (encode_uvarint 0xFFFF_FFFF_FFFF_FFFF []))
decode_uvarint-encode_uvarint_example =
    decode_uvarint-encode_uvarint 0xFFFF_FFFF_FFFF_FFFF (7 ∷ []) (omega arith)

-- The check value of the header of crc32c.rs.
crc32c_known_vector :
    crc32c (0x31 ∷ 0x32 ∷ 0x33 ∷ 0x34 ∷ 0x35 ∷ 0x36 ∷ 0x37 ∷ 0x38 ∷ 0x39 ∷ []) ≡ 0xE306_9283
unfolding crc32c crc_loop table_entry table_rounds
crc32c_known_vector = refl
