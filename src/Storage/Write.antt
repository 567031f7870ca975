-- ===== src/Storage/Write.antt =====
-- MID/j1939_profile_storage.c: `prv_write_slot` and its loops.
use teep_j1939_patent.Base.{ℕ, zero, suc, ◌+◌, ◌/◌, List, get_or}
use teep_j1939_patent.Base.{Option, none, some, Bool, true, false, ◌&&◌, ◌||◌, not}
use teep_j1939_patent.Base.{◌==◌, u16, if◌then◌else◌, bit_and, ◌>>>◌}
use teep_j1939_patent.HalFlash.{Flash, erase_page, program_halfword, flash_read}
use teep_j1939_patent.HalFlash.{is_flash_ok, flash_page_size}
use teep_j1939_patent.Storage.Bytes.{read_u16}
use teep_j1939_patent.Storage.Defs.{storage_valid_marker}
use teep_j1939_patent.Storage.Defs.{storage_pages_per_slot}
use teep_j1939_patent.Storage.Defs.{off_valid_marker}
use teep_j1939_patent.Storage.Defs.{slot_address, Result, ok, failed}
use teep_j1939_patent.Storage.Defs.{Info, Storage}
use teep_j1939_patent.Storage.Defs.{flash_error, verify_error}
use teep_j1939_patent.Storage.Ops.{load_slot}

-- The loop that erases pages, up to the first that fails: `left` pages from `address` on
unfoldable pub erase_pages : ℕ → ℕ → Flash → Bool × Flash
erase_pages zero address f = (true, f)
erase_pages (suc left) address f =
    let erased = erase_page address f in
    let rest = erase_pages left (address + flash_page_size) erased.1 in
    if is_flash_ok erased.0 then rest else (false, erased.1)

abbrev pub is_marker : ℕ → Bool
is_marker offset = (offset == off_valid_marker) || (offset == off_valid_marker + 2)

-- The loop that programs the image without its marker: `left` halfwords from `offset` on
unfoldable pub program_image : List ℕ → ℕ → ℕ → ℕ → Flash → Bool × Flash
program_image image address zero offset f = (true, f)
program_image image address (suc left) offset f =
    let programmed = program_halfword (address + offset) (read_u16 image offset) f in
    let skipped = program_image image address left (offset + 2) f in
    let rest = program_image image address left (offset + 2) programmed.1 in
    if is_marker offset
    then skipped
    else if is_flash_ok programmed.0
    then rest
    else (false, programmed.1)

abbrev pub halfword_matches : List ℕ → ℕ → Option (List ℕ) → Bool
halfword_matches image offset none = false
halfword_matches image offset (some actual) =
    (get_or actual 0 0 == get_or image offset 0)
    && (get_or actual 1 0 == get_or image (offset + 1) 0)

-- The loop that reads the image back without its marker
unfoldable pub verify_image : List ℕ → ℕ → ℕ → ℕ → (ℕ → ℕ) → Bool
verify_image image address zero offset memory = true
verify_image image address (suc left) offset memory =
    let rest = verify_image image address left (offset + 2) memory in
    if is_marker offset
    then rest
    else if halfword_matches image offset (flash_read memory (address + offset) 2)
    then rest
    else false

-- The rounds of the two loops: half of `(total_length + 1u) & ~1u`
abbrev pub halfwords : ℕ → ℕ
halfwords total_length = u16 (bit_and (total_length + 1) 0xffff_fffe) / 2

-- The two halfwords of the marker
unfoldable pub program_marker : ℕ → Flash → Bool × Flash
program_marker address f =
    let low = program_halfword (address + off_valid_marker) (u16 storage_valid_marker) f in
    let high =
      program_halfword (address + off_valid_marker + 2) (u16 (storage_valid_marker >>> 16)) low.1 in
    if not (is_flash_ok low.0) then (false, low.1) else (is_flash_ok high.0, high.1)

-- The end of `prv_write_slot`: the new slot is loaded as a reader loads it.
unfoldable pub confirm_slot : ℕ → Storage → Result Info × Storage
confirm_slot slot s =
    let loaded = load_slot slot s in
    elim loaded.0 [
      | ok info ↦ (ok info, record s { image = loaded.1 })
      | failed _ ↦ (failed verify_error, record s { image = loaded.1 })
    ]

-- `prv_write_slot`
unfoldable pub write_slot : ℕ → ℕ → Storage → Result Info × Storage
write_slot slot total_length s =
    let address = slot_address slot in
    let rounds = halfwords total_length in
    let erased = erase_pages storage_pages_per_slot address s.flash in
    let programmed = program_image s.image address rounds 0 erased.1 in
    let marked = program_marker address programmed.1 in
    if not erased.0
    then (failed flash_error, record s { flash = erased.1 })
    else if not programmed.0
    then (failed flash_error, record s { flash = programmed.1 })
    else if not (verify_image s.image address rounds 0 programmed.1.memory)
    then (failed verify_error, record s { flash = programmed.1 })
    else if not marked.0
    then (failed flash_error, record s { flash = marked.1 })
    else confirm_slot slot (record s { flash = marked.1 })
