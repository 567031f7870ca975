-- ===== src/Storage/Defs.antt =====
-- MID/j1939_profile_storage.{h,c}: the image's layout, the state and the checks of one record.
use teep_j1939_patent.Base.{ℕ, ◌/◌, ◌^◌, List, take}
use teep_j1939_patent.Base.{Bool, ◌&&◌, not, ltb, ◌==◌, u16}
use teep_j1939_patent.Base.{if◌then◌else◌, sub32}
use teep_j1939_patent.Crc.{crc_init, crc_update, crc_update_u32_le, crc_final}
use teep_j1939_patent.Catalog.{signal_at, catalog_crc32}
use teep_j1939_patent.ValueStore.{blob_max_bytes, config_magic}
use teep_j1939_patent.HalFlash.{Flash, profile_slot_a_address, profile_slot_b_address}
use teep_j1939_patent.Storage.Bytes.{write_u32}

-- `STORAGE_MAGIC`, `STORAGE_VALID_MARKER`
abbrev pub storage_magic : ℕ
storage_magic = 0x3650_394a

abbrev pub storage_valid_marker : ℕ
storage_valid_marker = 0xa55a_a55a

abbrev pub storage_header_bytes : ℕ
storage_header_bytes = 44

abbrev pub storage_image_max_bytes : ℕ
storage_image_max_bytes = 1536

abbrev pub storage_pages_per_slot : ℕ
storage_pages_per_slot = 4

abbrev pub off_magic : ℕ
off_magic = 0

abbrev pub off_format_version : ℕ
off_format_version = 4

abbrev pub off_header_length : ℕ
off_header_length = 6

abbrev pub off_catalog_crc : ℕ
off_catalog_crc = 8

abbrev pub off_sequence : ℕ
off_sequence = 12

abbrev pub off_config_crc : ℕ
off_config_crc = 16

abbrev pub off_image_crc : ℕ
off_image_crc = 20

abbrev pub off_bitrate_bps : ℕ
off_bitrate_bps = 24

abbrev pub off_payload_length : ℕ
off_payload_length = 28

abbrev pub off_signal_count : ℕ
off_signal_count = 30

abbrev pub off_scalar_count : ℕ
off_scalar_count = 32

abbrev pub off_profile_id : ℕ
off_profile_id = 34

abbrev pub off_blob_count : ℕ
off_blob_count = 35

abbrev pub off_flags : ℕ
off_flags = 36

abbrev pub off_reserved : ℕ
off_reserved = 38

abbrev pub off_valid_marker : ℕ
off_valid_marker = 40

-- `J1939_PROFILE_STORAGE_FORMAT_VERSION`, `J1939_PROFILE_STORAGE_FLAG_AUTOSTART`
abbrev pub format_version : ℕ
format_version = 1

abbrev pub flag_autostart : ℕ
flag_autostart = 1

-- `Profile_Storage_Status_t` without `PROFILE_STORAGE_OK`, which is `ok` of a result
pub data StorageStatus : Type 0 where
  storage_empty storage_busy invalid_image catalog_mismatch flash_error : StorageStatus
  verify_error unsupported_config visitor_rejected : StorageStatus

-- The status of a call, with what the call writes on `PROFILE_STORAGE_OK`
pub data Result {ℓ} (A : Type ℓ) : Type ℓ where
  ok : A → Result A
  failed : StorageStatus → Result A

-- `Profile_Storage_Info_t`
pub record Info : Type 0 where
  pub sequence : ℕ
  pub config_crc : ℕ
  pub bitrate_bps : ℕ
  pub signal_count : ℕ
  pub scalar_count : ℕ
  pub flags : ℕ
  pub profile_id : ℕ
  pub blob_count : ℕ
  pub slot : ℕ

-- `s_image` and the flash it is copied from and to
pub record Storage : Type 0 where
  pub image : List ℕ
  pub flash : Flash

-- `prv_slot_address`
abbrev pub slot_address : ℕ → ℕ
slot_address slot = if slot == 0 then profile_slot_a_address else profile_slot_b_address

-- `prv_sequence_newer`: the difference, as an `int32_t`, is above zero.
unfoldable pub sequence_newer : ℕ → ℕ → Bool
sequence_newer a b = not (sub32 a b == 0) && ltb (sub32 a b) (2 ^ 31)

-- `prv_image_crc`: the checksum and the marker are put aside for the sum and back after it.
unfoldable pub image_crc : List ℕ → ℕ → ℕ
image_crc image total_length =
    let blank = write_u32 (write_u32 image off_image_crc 0) off_valid_marker 0xffff_ffff in
    crc_final (crc_update crc_init (take total_length blank))

-- `prv_blob_capacity`
unfoldable pub image_blob_capacity : ℕ → ℕ
image_blob_capacity catalog_index =
    let bytes = u16 ((signal_at catalog_index).bit_length / 8) in
    if ltb bytes blob_max_bytes then bytes else blob_max_bytes

-- The checksum of a configuration, before its first record
unfoldable pub config_crc_start : ℕ
config_crc_start = crc_update_u32_le (crc_update crc_init config_magic) catalog_crc32
