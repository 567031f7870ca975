-- ===== src/Storage/Isolated.antt =====
-- MID/j1939_profile_storage.c: `prv_write_slot` changes bytes of its slot only, however the flash
-- controller answers.
use teep_j1939_patent.Base.{ℕ, zero, suc, ◌+◌, ◌*◌, ◌/◌, ◌≤◌, ◌<◌, ◌≡◌, refl, ap}
use teep_j1939_patent.Base.{arith, List, inl, inr, ◌⊎◌, u16, ◌>>>◌}
use teep_j1939_patent.Base.{bit_and_step, bit_and_mask}
use teep_j1939_patent.HalFlash.{Flash, erase_page, program_halfword}
use teep_j1939_patent.HalFlash.Frame.{SameOutside, erase_page-SameOutside}
use teep_j1939_patent.HalFlash.Frame.{program_halfword-SameOutside}
use teep_j1939_patent.Storage.Bytes.{read_u16}
use teep_j1939_patent.Storage.Defs.{Storage, slot_address}
use teep_j1939_patent.Storage.Defs.{
  storage_image_max_bytes, storage_pages_per_slot, off_valid_marker, storage_valid_marker,
}
use teep_j1939_patent.Storage.Write.{erase_pages, program_image, program_marker}
use teep_j1939_patent.Storage.Write.{halfwords, confirm_slot, write_slot}
use teep_j1939_patent.Storage.Load.{IsImage}
use teep_j1939_patent.Storage.Latest.{load_slot-IsImage}

erase_pages-SameOutside :
    (left address : ℕ) (f : Flash)
    → SameOutside address (left * 1024) f.memory (erase_pages left address f).1.memory
unfolding erase_pages
erase_pages-SameOutside zero address f a h = refl
erase_pages-SameOutside (suc left) address f a h =
    let page : (erase_page address f).1.memory a ≡ f.memory a =
      erase_page-SameOutside address f a
        (elim h [ inl below ↦ inl below | inr above ↦ inr (omega arith) ]) in
    let rest =
      erase_pages-SameOutside left (address + 1024) (erase_page address f).1 a
        (elim h [ inl below ↦ inl (omega arith) | inr above ↦ inr (omega arith) ]) in
    ground (arith, page, rest)

program_image-SameOutside :
    (image : List ℕ) (address left offset : ℕ) (f : Flash)
    → SameOutside
        (address + offset)
        (left * 2)
        f.memory
        (program_image image address left offset f).1.memory
unfolding program_image
program_image-SameOutside image address zero offset f a h = refl
program_image-SameOutside image address (suc left) offset f a h =
    let value = read_u16 image offset in
    let next = (program_halfword (address + offset) value f).1 in
    let here : next.memory a ≡ f.memory a =
      program_halfword-SameOutside (address + offset) value f a
        (elim h [ inl below ↦ inl below | inr above ↦ inr (omega arith) ]) in
    let beyond : (a < address + (offset + 2)) ⊎ (address + (offset + 2) + left * 2 ≤ a) = elim h [
      | inl below ↦ inl (omega arith)
      | inr above ↦ inr (omega arith)
    ] in
    let skipped = program_image-SameOutside image address left (offset + 2) f a beyond in
    let rest = program_image-SameOutside image address left (offset + 2) next a beyond in
    ground (arith, here, skipped, rest)

pub program_marker-SameOutside :
    (address : ℕ) (f : Flash)
    → SameOutside (address + off_valid_marker) 4 f.memory (program_marker address f).1.memory
unfolding program_marker
program_marker-SameOutside address f a h =
    let low = (program_halfword (address + off_valid_marker) (u16 storage_valid_marker) f).1 in
    let first =
      program_halfword-SameOutside (address + off_valid_marker) (u16 storage_valid_marker) f a
        (elim h [ inl below ↦ inl below | inr above ↦ inr (omega arith) ]) in
    let second =
      program_halfword-SameOutside (address + off_valid_marker + 2)
        (u16 (storage_valid_marker >>> 16)) low a
        (elim h [ inl below ↦ inl (omega arith) | inr above ↦ inr (omega arith) ]) in
    ground (arith, first, second)

-- `(n & ~1u)` is the even number at or below `n`.
pub halfwords-half :
    (total : ℕ) → total ≤ storage_image_max_bytes → halfwords total ≡ (total + 1) / 2
halfwords-half total fits =
    let step = bit_and_step (total + 1) 0xffff_fffe in
    let rest = bit_and_mask 31 ((total + 1) / 2) in omega (arith, step, rest)

confirm_slot-flash : (slot : ℕ) (s : Storage) → (confirm_slot slot s).1.flash ≡ s.flash
unfolding confirm_slot
confirm_slot-flash slot s = ground arith

-- Every byte outside the slot stays, whatever the controller answers and wherever the write stops.
pub write_slot-SameOutside :
    (slot total : ℕ) (s : Storage)
    → total ≤ storage_image_max_bytes
    → SameOutside (slot_address slot) 4096 s.flash.memory (write_slot slot total s).1.flash.memory
unfolding write_slot
write_slot-SameOutside slot total s fits a h =
    let address = slot_address slot in
    let rounds = halfwords total in
    let half = halfwords-half total fits in
    let erased = (erase_pages storage_pages_per_slot address s.flash).1 in
    let programmed = (program_image s.image address rounds 0 erased).1 in
    let marked = (program_marker address programmed).1 in
    let first = erase_pages-SameOutside storage_pages_per_slot address s.flash a h in
    let second =
      program_image-SameOutside s.image address rounds 0 erased a
        (elim h [ inl below ↦ inl (omega arith) | inr above ↦ inr (omega (arith, half)) ]) in
    let third =
      program_marker-SameOutside address programmed a
        (elim h [ inl below ↦ inl (omega arith) | inr above ↦ inr (omega arith) ]) in
    let last =
      ap (λ (f : Flash). f.memory a) (confirm_slot-flash slot (record s { flash = marked })) in
    grind (arith, first, second, third, last)

pub write_slot-IsImage :
    (slot total : ℕ) (s : Storage) → IsImage s.image → IsImage (write_slot slot total s).1.image
unfolding write_slot confirm_slot
write_slot-IsImage slot total s size =
    let address = slot_address slot in
    let rounds = halfwords total in
    let erased = (erase_pages storage_pages_per_slot address s.flash).1 in
    let programmed = (program_image s.image address rounds 0 erased).1 in
    let marked = (program_marker address programmed).1 in
    let loaded = load_slot-IsImage slot (record s { flash = marked }) size in grind (arith, loaded)
