-- ===== src/Storage/Save.antt =====
-- MID/j1939_profile_storage.c: the operations that write a slot, and the visit of a saved profile.
use teep_j1939_patent.Base.{ℕ, ◌+◌, List}
use teep_j1939_patent.Base.{Bool, not}
use teep_j1939_patent.Base.{u8, u32, if◌then◌else◌, bit_xor}
use teep_j1939_patent.ValueStore.{Store}
use teep_j1939_patent.Storage.Bytes.{write_u16, write_u32}
use teep_j1939_patent.Storage.Defs.{storage_pages_per_slot}
use teep_j1939_patent.Storage.Defs.{off_sequence, off_image_crc}
use teep_j1939_patent.Storage.Defs.{off_flags}
use teep_j1939_patent.Storage.Defs.{off_valid_marker}
use teep_j1939_patent.Storage.Defs.{flag_autostart, slot_address, image_crc, Result, ok, failed}
use teep_j1939_patent.Storage.Defs.{Info, Storage, storage_empty, catalog_mismatch}
use teep_j1939_patent.Storage.Defs.{flash_error}
use teep_j1939_patent.Storage.Ops.{at_slot, open_latest}
use teep_j1939_patent.Storage.Parse.{parse, Visitors, image_length}
use teep_j1939_patent.Storage.Build.{build_image}
use teep_j1939_patent.Storage.Write.{write_slot, erase_pages}

-- The end of `Profile_Storage_Save`: the image of the active values to one slot
unfoldable pub save_to : Store → ℕ → ℕ → Bool → ℕ → ℕ → Storage → Result Info × Storage
save_to values profile_id bitrate_bps autostart sequence target s =
    let built = build_image values profile_id bitrate_bps autostart sequence in
    elim built.0 [
      | failed status ↦ (failed status, record s { image = built.1 })
      | ok total_length ↦ write_slot target total_length (record s { image = built.1 })
    ]

-- `Profile_Storage_Save`
unfoldable pub save : Store → ℕ → ℕ → Bool → Storage → Result Info × Storage
save values profile_id bitrate_bps autostart s =
    let opened = open_latest s in
    elim opened.0 [
      | ok current ↦
          save_to values profile_id bitrate_bps autostart (u32 (current.sequence + 1))
            (u8 (bit_xor current.slot 1)) opened.1
      | failed storage_empty ↦ save_to values profile_id bitrate_bps autostart 1 0 opened.1
      | failed catalog_mismatch ↦ save_to values profile_id bitrate_bps autostart 1 0 opened.1
      | failed status ↦ (failed status, opened.1)
    ]

-- `Profile_Storage_Visit_Latest`
unfoldable pub visit_latest : {C : Type 0} → Visitors C → Storage → C → (Result Info × C) × Storage
visit_latest v s context =
    let opened = open_latest s in
    elim opened.0 [
      | failed status ↦ ((failed status, context), opened.1)
      | ok info ↦
          let parsed = parse v opened.1.image context in
          ((at_slot info.slot parsed.0, parsed.1), opened.1)
    ]

-- The image of `Profile_Storage_Set_Autostart`, before its checksum
unfoldable pub autostart_image : List ℕ → ℕ → Bool → List ℕ
autostart_image image sequence enabled =
    let a = write_u32 image off_sequence sequence in
    let b = write_u16 a off_flags (if enabled then flag_autostart else 0) in
    let c = write_u32 b off_valid_marker 0xffff_ffff in write_u32 c off_image_crc 0

-- `Profile_Storage_Set_Autostart`
unfoldable pub set_autostart : Bool → Storage → Result Info × Storage
set_autostart enabled s =
    let opened = open_latest s in
    elim opened.0 [
      | failed status ↦ (failed status, opened.1)
      | ok current ↦
          let changed = autostart_image opened.1.image (u32 (current.sequence + 1)) enabled in
          let total_length = image_length changed in
          let image = write_u32 changed off_image_crc (image_crc changed total_length) in
          write_slot (u8 (bit_xor current.slot 1)) total_length (record opened.1 { image = image })
    ]

-- `Profile_Storage_Erase`
unfoldable pub erase : Storage → Result {0} Unit × Storage
erase s =
    let first = erase_pages storage_pages_per_slot (slot_address 0) s.flash in
    let second = erase_pages storage_pages_per_slot (slot_address 1) first.1 in
    if not first.0
    then (failed flash_error, record s { flash = first.1 })
    else if not second.0
    then (failed flash_error, record s { flash = second.1 })
    else (ok tt, record s { flash = second.1 })
