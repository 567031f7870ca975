-- ===== src/Storage/Ops.antt =====
-- MID/j1939_profile_storage.c: loading, building, writing and erasing the slots.
use teep_j1939_patent.Base.{Option, ℕ, List}
use teep_j1939_patent.Base.{replicate, none, some, Bool, ◌||◌}
use teep_j1939_patent.Base.{ltb, ◌!=◌, if◌then◌else◌}
use teep_j1939_patent.Catalog.{catalog_crc32}
use teep_j1939_patent.HalFlash.{Flash, flash_read}
use teep_j1939_patent.HalFlash.{profile_slot_size}
use teep_j1939_patent.Storage.Bytes.{read_u16, read_u32, copy_in}
use teep_j1939_patent.Storage.Defs.{storage_magic, storage_valid_marker, storage_header_bytes}
use teep_j1939_patent.Storage.Defs.{storage_image_max_bytes}
use teep_j1939_patent.Storage.Defs.{off_magic, off_format_version, off_header_length}
use teep_j1939_patent.Storage.Defs.{off_catalog_crc, off_image_crc}
use teep_j1939_patent.Storage.Defs.{off_reserved, off_valid_marker, format_version}
use teep_j1939_patent.Storage.Defs.{slot_address, sequence_newer, image_crc}
use teep_j1939_patent.Storage.Defs.{Result, ok}
use teep_j1939_patent.Storage.Defs.{failed, Info, Storage, storage_empty}
use teep_j1939_patent.Storage.Defs.{invalid_image, catalog_mismatch, flash_error}
use teep_j1939_patent.Storage.Defs.{StorageStatus}
use teep_j1939_patent.Storage.Parse.{parse, no_visitors, image_length}

-- `Profile_Storage_Init`
abbrev pub storage_init : Flash → Storage
storage_init flash = record { image = replicate storage_image_max_bytes 0; flash = flash }

-- The fields of the header that are checked before the payload is read
unfoldable pub header_rejected : List ℕ → Bool
header_rejected image =
    (read_u32 image off_magic != storage_magic)
    || (read_u16 image off_format_version != format_version)
    || (read_u16 image off_header_length != storage_header_bytes)
    || (read_u32 image off_valid_marker != storage_valid_marker)
    || (read_u16 image off_reserved != 0)

abbrev pub at_slot : ℕ → Result Info → Result Info
at_slot slot (ok info) = ok (record info { slot = slot })
at_slot slot (failed status) = failed status

-- `prv_load_slot` after the whole image has been read
unfoldable pub load_image : ℕ → List ℕ → Result Info
load_image slot image =
    let total_length = image_length image in
    if image_crc image total_length != read_u32 image off_image_crc
    then failed invalid_image
    else at_slot slot (parse no_visitors image tt).0

-- `prv_load_slot` from the second read on
unfoldable pub load_whole : ℕ → List ℕ → Option (List ℕ) → Result Info × List ℕ
load_whole slot image none = (failed flash_error, image)
load_whole slot image (some whole) =
    (load_image slot (copy_in image 0 whole), copy_in image 0 whole)

-- `prv_load_slot` from the checks of the header on
unfoldable pub load_checked : ℕ → (ℕ → ℕ) → List ℕ → Result Info × List ℕ
load_checked slot memory image =
    let total_length = image_length image in
    if header_rejected image
    then (failed invalid_image, image)
    else if read_u32 image off_catalog_crc != catalog_crc32
    then (failed catalog_mismatch, image)
    else if ltb storage_image_max_bytes total_length || ltb profile_slot_size total_length
    then (failed invalid_image, image)
    else load_whole slot image (flash_read memory (slot_address slot) total_length)

-- `prv_load_slot` from the first read on
unfoldable pub load_header : ℕ → Storage → Option (List ℕ) → Result Info × List ℕ
load_header slot s none = (failed flash_error, s.image)
load_header slot s (some header) = load_checked slot s.flash.memory (copy_in s.image 0 header)

-- `prv_load_slot`: the result, and `s_image` after it
unfoldable pub load_slot : ℕ → Storage → Result Info × List ℕ
load_slot slot s =
    load_header slot s (flash_read s.flash.memory (slot_address slot) storage_header_bytes)

-- The status of `Profile_Storage_Open_Latest` where neither slot loads
unfoldable pub no_slot_status : StorageStatus → StorageStatus → StorageStatus
no_slot_status catalog_mismatch _ = catalog_mismatch
no_slot_status _ catalog_mismatch = catalog_mismatch
no_slot_status flash_error _ = flash_error
no_slot_status _ flash_error = flash_error
no_slot_status _ _ = storage_empty

-- The choice of `Profile_Storage_Open_Latest`: the slot, or the status without one
unfoldable pub select_slot : Result Info → Result Info → Result ℕ
select_slot (ok a) (ok b) = ok (if sequence_newer b.sequence a.sequence then 1 else 0)
select_slot (ok a) (failed sb) = ok 0
select_slot (failed sa) (ok b) = ok 1
select_slot (failed sa) (failed sb) = failed (no_slot_status sa sb)

-- `Profile_Storage_Open_Latest`
unfoldable pub open_latest : Storage → Result Info × Storage
open_latest s =
    let first = load_slot 0 s in
    let second = load_slot 1 (record s { image = first.1 }) in
    let t = record s { image = second.1 } in
    elim (select_slot first.0 second.0) [
      | failed status ↦ (failed status, t)
      | ok selected ↦ let last = load_slot selected t in (last.0, record t { image = last.1 })
    ]
