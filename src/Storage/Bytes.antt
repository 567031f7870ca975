-- ===== src/Storage/Bytes.antt =====
-- MID/j1939_profile_storage.c: little-endian fields of the image buffer.
use teep_j1939_patent.Base.{ℕ, zero, suc, ◌+◌}
use teep_j1939_patent.Base.{List, [], ◌∷◌, get_or, set, bit_or, u8}
use teep_j1939_patent.Base.{◌<<<◌, ◌>>>◌}

-- `prv_read_u16(&s_image[at])`
abbrev pub read_u16 : List ℕ → ℕ → ℕ
read_u16 image at = bit_or (get_or image (at + 1) 0 <<< 8) (get_or image at 0)

-- `prv_read_u32(&s_image[at])`
abbrev pub read_u32 : List ℕ → ℕ → ℕ
read_u32 image at =
    bit_or (bit_or (get_or image (at + 3) 0 <<< 24) (get_or image (at + 2) 0 <<< 16))
      (read_u16 image at)

-- `prv_write_u16(&s_image[at], value)`
abbrev pub write_u16 : List ℕ → ℕ → ℕ → List ℕ
write_u16 image at value = set (set image at (u8 value)) (at + 1) (u8 (value >>> 8))

-- `prv_write_u32(&s_image[at], value)`
abbrev pub write_u32 : List ℕ → ℕ → ℕ → List ℕ
write_u32 image at value = write_u16 (write_u16 image at value) (at + 2) (value >>> 16)

-- `memcpy(&s_image[at], data, length)`
abbrev pub copy_in : List ℕ → ℕ → List ℕ → List ℕ
copy_in image at [] = image
copy_in image at (b ∷ bs) = copy_in (set image at b) (suc at) bs

-- `length` bytes of the image from `at` on
abbrev pub bytes_from : List ℕ → ℕ → ℕ → List ℕ
bytes_from image at zero = []
bytes_from image at (suc n) = get_or image at 0 ∷ bytes_from image (suc at) n
