-- ===== src/Crc.antt =====
-- MID/j1939_crc32.{h,c}: table-less CRC-32/ISO-HDLC over a byte stream.
pub mod Xor
pub mod Detect
use teep_j1939_patent.Base.{ℕ, zero, suc, ◌+◌, ◌-◌, ◌*◌, ◌/◌, ◌%◌, ◌^◌, List, [], ◌∷◌, u8, ◌>>>◌}
use teep_j1939_patent.Base.{sub32, bit_and, bit_xor}

-- `J1939_CRC32_INIT`
abbrev pub crc_init : ℕ
crc_init = 0xffff_ffff

abbrev pub crc_poly : ℕ
crc_poly = 0xedb8_8320

-- One round of the bit loop: `(crc >> 1) ^ (poly & (0 - (crc & 1)))`.
unfoldable pub crc_round : ℕ → ℕ
crc_round crc = bit_xor (crc >>> 1) (bit_and crc_poly (sub32 0 (bit_and crc 1)))

unfoldable pub crc_rounds : ℕ → ℕ → ℕ
crc_rounds zero crc = crc
crc_rounds (suc n) crc = crc_rounds n (crc_round crc)

-- `J1939_Crc32_Update_U8`
unfoldable pub crc_update_u8 : ℕ → ℕ → ℕ
crc_update_u8 crc value = crc_rounds 8 (bit_xor crc value)

-- `J1939_Crc32_Update`; the list is `data[0..length)`.
unfoldable pub crc_update : ℕ → List ℕ → ℕ
crc_update crc [] = crc
crc_update crc (b ∷ bs) = crc_update (crc_update_u8 crc b) bs

-- `J1939_Crc32_Update_U16_LE`
unfoldable pub crc_update_u16_le : ℕ → ℕ → ℕ
crc_update_u16_le crc value = crc_update_u8 (crc_update_u8 crc (u8 value)) (u8 (value >>> 8))

-- `J1939_Crc32_Update_U32_LE`
unfoldable pub crc_update_u32_le : ℕ → ℕ → ℕ
crc_update_u32_le crc value =
    crc_update_u16_le (crc_update_u16_le crc (value % 2 ^ 16)) ((value >>> 16) % 2 ^ 16)

-- `J1939_Crc32_Final`
unfoldable pub crc_final : ℕ → ℕ
crc_final crc = bit_xor crc 0xffff_ffff
