-- ===== src/Storage/Written.antt =====
-- MID/j1939_profile_storage.c: what the slot holds after `prv_write_slot` has returned an info.
use teep_j1939_patent.Base.{ℕ, zero, suc, ◌+◌, ◌*◌, ◌≤◌, ◌<◌, ◌≡◌, refl, ◌∙◌, ap, sym}
use teep_j1939_patent.Base.{arith, List, inl, inr, ◌⊎◌, true, Bool-cases, get_or, subst}
use teep_j1939_patent.HalFlash.{Flash, flash_read}
use teep_j1939_patent.Storage.Defs.{Result, ok, Info, Storage, slot_address}
use teep_j1939_patent.Storage.Defs.{
  storage_image_max_bytes, storage_pages_per_slot, off_valid_marker,
}
use teep_j1939_patent.Storage.Ops.{load_slot}
use teep_j1939_patent.Storage.Write.{erase_pages, program_image, program_marker}
use teep_j1939_patent.Storage.Write.{
  halfwords, halfword_matches, confirm_slot, write_slot, verify_image,
}
use teep_j1939_patent.Storage.Walk.{Result-cases}
use teep_j1939_patent.Storage.Load.{Loads, load_slot-Loads}
use teep_j1939_patent.Storage.Isolated.{program_marker-SameOutside, halfwords-half}

-- `j` is none of the four bytes of the marker.
abbrev pub OffMarker : ℕ → Type 0
OffMarker j = (j < off_valid_marker) ⊎ (off_valid_marker + 4 ≤ j)

matching_bytes :
    (image : List ℕ) (m : ℕ → ℕ) (address offset : ℕ)
    → halfword_matches image offset (flash_read m (address + offset) 2) ≡ true
    → (m (address + offset) ≡ get_or image offset 0)
      × (m (suc (address + offset)) ≡ get_or image (offset + 1) 0)
unfolding flash_read
matching_bytes image m address offset h = (ground arith, ground arith)

verify_image-bytes :
    (image : List ℕ) (address left offset : ℕ) (m : ℕ → ℕ) (j : ℕ)
    → verify_image image address left offset m ≡ true
    → offset ≤ j
    → j < offset + left * 2
    → OffMarker j
    → m (address + j) ≡ get_or image j 0
unfolding verify_image
verify_image-bytes image address zero offset m j e low high off = absurd (omega arith)
verify_image-bytes image address (suc left) offset m j e low high off =
    let split : (j ≡ offset) ⊎ ((j ≡ offset + 1) ⊎ (offset + 2 ≤ j)) = omega arith in
    let read_back = halfword_matches image offset (flash_read m (address + offset) 2) in
    elim split [
      | inl here ↦
          let matched : read_back ≡ true = grind arith in
          let pair = matching_bytes image m address offset matched in
          ap (λ k. m (address + k)) here ∙ pair.0 ∙ ap (λ k. get_or image k 0) (sym here)
      | inr (inl next) ↦
          let matched : read_back ≡ true = grind arith in
          let pair = matching_bytes image m address offset matched in
          ap m (omega arith) ∙ pair.1 ∙ ap (λ k. get_or image k 0) (sym next)
      | inr (inr later) ↦
          verify_image-bytes image address left (offset + 2) m j (grind arith) later (omega arith)
            off
    ]

-- What a write that returns an info leaves in the flash: the image without its marker, and a slot
-- that loads with that info.
pub record Written (slot total : ℕ) (s : Storage) (info : Info) (t : Storage) : Type 0 where
  pub bytes :
      (j : ℕ)
      → j < total
      → OffMarker j
      → t.flash.memory (slot_address slot + j) ≡ get_or s.image j 0
  pub loads : Loads slot (record s { flash = t.flash }) info

confirm_slot-loads :
    (slot : ℕ) (s : Storage) (info : Info)
    → (confirm_slot slot s).0 ≡ ok info
    → ((load_slot slot s).0 ≡ ok info) × ((confirm_slot slot s).1.flash ≡ s.flash)
unfolding confirm_slot
confirm_slot-loads slot s info e = elim (Result-cases (load_slot slot s).0) [
  | inr (status, k) ↦ absurd (grind arith)
  | inl (found, k) ↦ (grind arith, grind arith)
]

pub write_slot-Written :
    (slot total : ℕ) (s : Storage) (info : Info)
    → total ≤ storage_image_max_bytes
    → (write_slot slot total s).0 ≡ ok info
    → Written slot total s info (write_slot slot total s).1
unfolding write_slot
write_slot-Written slot total s info fits e =
    let address = slot_address slot in
    let rounds = halfwords total in
    let half = halfwords-half total fits in
    let erased = erase_pages storage_pages_per_slot address s.flash in
    let programmed = program_image s.image address rounds 0 erased.1 in
    let marked = program_marker address programmed.1 in
    let last : Storage = record s { flash = marked.1 } in
    let verified = verify_image s.image address rounds 0 programmed.1.memory in
    let whole : (verified ≡ true) × (write_slot slot total s ≡ confirm_slot slot last) =
      elim (Bool-cases erased.0) [
        | inr bad ↦ absurd (grind arith)
        | inl good ↦ elim (Bool-cases programmed.0) [
          | inr bad ↦ absurd (grind arith)
          | inl better ↦ elim (Bool-cases verified) [
            | inr bad ↦ absurd (grind arith)
            | inl best ↦ elim (Bool-cases marked.0) [
              | inr bad ↦ absurd (grind arith)
              | inl done ↦ (best, rw (good, better, best, done, write_slot) refl)
            ]
          ]
        ]
      ] in
    let (found, same) =
      confirm_slot-loads slot last info
        (sym (ap (λ (r : Result Info × Storage). r.0) whole.1) ∙ e) in
    let flash : (write_slot slot total s).1.flash ≡ marked.1 =
      ap (λ (r : Result Info × Storage). r.1.flash) whole.1 ∙ same in
    record {
      bytes = λ j below off.
          ap (λ (f : Flash). f.memory (address + j)) flash
          ∙ program_marker-SameOutside address programmed.1 (address + j)
              (elim off [ inl left ↦ inl (omega arith) | inr right ↦ inr (omega arith) ])
          ∙ verify_image-bytes s.image address rounds 0 programmed.1.memory j whole.0 (omega arith)
              (omega (arith, half)) off;
      loads =
          subst (λ (f : Flash). Loads slot (record s { flash = f }) info) (sym flash)
            (load_slot-Loads slot last info found);
    }
