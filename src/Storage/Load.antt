-- ===== src/Storage/Load.antt =====
-- MID/j1939_profile_storage.c: `prv_load_slot` depends on the bytes of its slot only.
use teep_j1939_patent.Base.{ℕ, ◌+◌, ◌≤◌, ◌<◌, ◌≡◌, refl, ◌∙◌, ap, ap₂}
use teep_j1939_patent.Base.{arith, sym, List, get_or, Bool, false, ltb, ◌==◌, ◌!=◌, ◌||◌}
use teep_j1939_patent.Base.{Bool-cases, inl, inr, if◌then◌else◌, some, none, set, take, length}
use teep_j1939_patent.Base.{
  get_or-set_self, get_or-set_ne, length-set, length-take, get_or-take, get_or_ext,
}
use teep_j1939_patent.Base.{subst}
use teep_j1939_patent.Crc.{crc_init, crc_update, crc_final}
use teep_j1939_patent.Catalog.{catalog_crc32}
use teep_j1939_patent.HalFlash.{profile_slot_size, flash_read, bytes_at}
use teep_j1939_patent.Storage.Bytes.{read_u16, read_u32, write_u16, write_u32, copy_in}
use teep_j1939_patent.Storage.Defs.{
  Result, ok, failed, invalid_image, Info, Storage, image_crc, slot_address,
}
use teep_j1939_patent.Storage.Defs.{storage_header_bytes, storage_image_max_bytes, off_image_crc}
use teep_j1939_patent.Storage.Defs.{off_valid_marker, off_magic, off_format_version, off_reserved}
use teep_j1939_patent.Storage.Defs.{off_header_length, off_catalog_crc}
use teep_j1939_patent.Storage.Parse.{parse, no_visitors, image_length, info_of}
use teep_j1939_patent.Storage.Ops.{
  load_header, load_checked, load_whole, load_slot, load_image, header_rejected, at_slot,
}
use teep_j1939_patent.Storage.Reads.{SameBelow, read_u16_same, read_u32_same}
use teep_j1939_patent.Storage.Walk.{Result-cases}
use teep_j1939_patent.Storage.Accepted.{parse-same, parse-accepted, image_length-same}

-- `s_image` is an array of `STORAGE_IMAGE_MAX_BYTES`.
abbrev pub IsImage : List ℕ → Type 0
IsImage image = length image ≡ storage_image_max_bytes

-- Two memories hold the same bytes in a slot.
abbrev pub SameSlot : ℕ → (ℕ → ℕ) → (ℕ → ℕ) → Type 0
SameSlot slot m w = (j : ℕ) → j < 4096 → m (slot_address slot + j) ≡ w (slot_address slot + j)

-- Two image buffers with the same bytes below `n`
abbrev Twins : ℕ → List ℕ → List ℕ → Type 0
Twins n x y = IsImage x × IsImage y × SameBelow n x y

set-Twins :
    (n : ℕ) (x y : List ℕ) (k v : ℕ)
    → k < storage_image_max_bytes
    → Twins n x y
    → Twins n (set x k v) (set y k v)
set-Twins n x y k v below (lx, ly, same) = (
  length-set x k v ∙ lx,
  length-set y k v ∙ ly,
  λ j h. elim (Bool-cases (k == j)) [
    | inl here ↦
        let e : k ≡ j = ground arith in
        subst (λ i. get_or (set x k v) i 0 ≡ get_or (set y k v) i 0) e
          (get_or-set_self x k v 0 (omega arith) ∙ sym (get_or-set_self y k v 0 (omega arith)))
    | inr there ↦
        let away : (k ≡ j) → ⊥ = λ e. ground arith in
        get_or-set_ne x k j v 0 away ∙ same j h ∙ sym (get_or-set_ne y k j v 0 away)
  ],
)

write_u16-Twins :
    (n : ℕ) (x y : List ℕ) (k v : ℕ)
    → k + 2 ≤ storage_image_max_bytes
    → Twins n x y
    → Twins n (write_u16 x k v) (write_u16 y k v)
write_u16-Twins n x y k v room t =
    set-Twins n _ _ (k + 1) _ (omega arith) (set-Twins n x y k _ (omega arith) t)

write_u32-Twins :
    (n : ℕ) (x y : List ℕ) (k v : ℕ)
    → k + 4 ≤ storage_image_max_bytes
    → Twins n x y
    → Twins n (write_u32 x k v) (write_u32 y k v)
write_u32-Twins n x y k v room t =
    write_u16-Twins n _ _ (k + 2) _ (omega arith) (write_u16-Twins n x y k v (omega arith) t)

take-Twins : (n : ℕ) (x y : List ℕ) → Twins n x y → take n x ≡ take n y
take-Twins n x y (lx, ly, same) =
    get_or_ext 0 (take n x) (take n y) (omega (arith, length-take n x, length-take n y)) (λ j h.
      let below : j < n = omega (arith, length-take n x) in
      get_or-take n x j 0 below ∙ same j below ∙ sym (get_or-take n y j 0 below))

image_crc_same : (x y : List ℕ) (n : ℕ) → Twins n x y → image_crc x n ≡ image_crc y n
unfolding image_crc
image_crc_same x y n t =
    let blank =
      write_u32-Twins n _ _ off_valid_marker 0xffff_ffff (omega arith)
        (write_u32-Twins n x y off_image_crc 0 (omega arith) t) in
    ap (λ bs. crc_final (crc_update crc_init bs)) (take-Twins n _ _ blank)

pub header_rejected_same :
    (x y : List ℕ) → SameBelow storage_header_bytes x y → header_rejected x ≡ header_rejected y
unfolding header_rejected
header_rejected_same x y same =
    let u32_at : (at : ℕ) → at + 4 ≤ storage_header_bytes → read_u32 x at ≡ read_u32 y at =
      λ at room. read_u32_same storage_header_bytes x y at same room in
    let u16_at : (at : ℕ) → at + 2 ≤ storage_header_bytes → read_u16 x at ≡ read_u16 y at =
      λ at room. read_u16_same storage_header_bytes x y at same room in
    rw
      (
        u32_at off_magic (omega arith),
        u16_at off_format_version (omega arith),
        u16_at off_header_length (omega arith),
        u32_at off_valid_marker (omega arith),
        u16_at off_reserved (omega arith),
      )
      refl

-- What `prv_load_slot` accepts, it accepts in any buffer with the same bytes.
pub load_image-accepted :
    (slot : ℕ) (x : List ℕ) (info : Info)
    → load_image slot x ≡ ok info
    → (info ≡ record (info_of x) { slot = slot }) × (storage_header_bytes ≤ image_length x)
unfolding load_image
load_image-accepted slot x info e =
    elim (Bool-cases (image_crc x (image_length x) != read_u32 x off_image_crc)) [
      | inl bad ↦ absurd (grind arith)
      | inr good ↦ elim (Result-cases (parse no_visitors x tt).0) [
        | inr (s, k) ↦ absurd (grind arith)
        | inl (parsed, k) ↦
            let facts = parse-accepted no_visitors x tt parsed k in
            (grind (arith, facts.0), facts.1)
      ]
    ]

pub load_image_same :
    (slot : ℕ) (x y : List ℕ) (info : Info)
    → Twins (image_length x) x y
    → load_image slot x ≡ ok info
    → load_image slot y ≡ ok info
unfolding load_image image_crc
load_image_same slot x y info t e =
    let long = (load_image-accepted slot x info e).1 in
    let header : SameBelow storage_header_bytes x y = λ j below. t.2 j (omega arith) in
    let end = image_length-same x y header in
    let crc = image_crc_same x y (image_length x) t in
    let stored = read_u32_same storage_header_bytes x y off_image_crc header (omega arith) in
    let parsed = parse-same no_visitors x y tt t.2 long in
    let both : load_image slot x ≡ load_image slot y =
      ap₂ (λ b r. if b then failed invalid_image else at_slot slot r)
        (ap₂ ◌!=◌ (crc ∙ ap (image_crc y) end) stored)
        (ap (λ (r : Result Info × Unit). r.0) parsed) in
    sym both ∙ e

flash_read-some :
    (m : ℕ → ℕ) (slot len : ℕ)
    → 0 < len
    → len ≤ storage_image_max_bytes
    → flash_read m (slot_address slot) len ≡ some (bytes_at m (slot_address slot) len)
unfolding flash_read
flash_read-some m slot len some_bytes fits = ground arith

flash_read-none : (m : ℕ → ℕ) (slot len : ℕ) → len ≡ 0 → flash_read m (slot_address slot) len ≡ none
unfolding flash_read
flash_read-none m slot len e = ground arith

-- `s_image` after the two reads of `prv_load_slot`
abbrev pub header_image : ℕ → Storage → List ℕ
header_image slot s =
    copy_in s.image 0 (bytes_at s.flash.memory (slot_address slot) storage_header_bytes)

abbrev pub whole_image : ℕ → Storage → List ℕ
whole_image slot s =
    copy_in (header_image slot s) 0
      (bytes_at s.flash.memory (slot_address slot) (image_length (header_image slot s)))

-- What `prv_load_slot` has checked when it accepts a slot
pub record Loads (slot : ℕ) (s : Storage) (info : Info) : Type 0 where
  pub header_accepted : header_rejected (header_image slot s) ≡ false
  pub same_catalog : read_u32 (header_image slot s) off_catalog_crc ≡ catalog_crc32
  pub fits : image_length (header_image slot s) ≤ storage_image_max_bytes
  pub some_bytes : 0 < image_length (header_image slot s)
  pub accepted : load_image slot (whole_image slot s) ≡ ok info

load_slot-checked :
    (slot : ℕ) (s : Storage)
    → load_slot slot s ≡ load_checked slot s.flash.memory (header_image slot s)
unfolding load_slot load_header
load_slot-checked slot s =
    ap (load_header slot s)
      (flash_read-some s.flash.memory slot storage_header_bytes (omega arith) (omega arith))

abbrev too_long : ℕ → Bool
too_long total_length =
    ltb storage_image_max_bytes total_length || ltb profile_slot_size total_length

pub load_slot-Loads :
    (slot : ℕ) (s : Storage) (info : Info) → (load_slot slot s).0 ≡ ok info → Loads slot s info
unfolding load_checked load_whole
load_slot-Loads slot s info e =
    let image = header_image slot s in
    let total = image_length image in
    let memory = s.flash.memory in
    let checked : (load_checked slot memory image).0 ≡ ok info =
      sym (ap (λ (r : Result Info × List ℕ). r.0) (load_slot-checked slot s)) ∙ e in
    elim (Bool-cases (header_rejected image)) [
      | inl bad ↦ absurd (grind arith)
      | inr header ↦ elim (Bool-cases (read_u32 image off_catalog_crc != catalog_crc32)) [
        | inl bad ↦ absurd (grind arith)
        | inr catalog ↦ elim (Bool-cases (too_long total)) [
          | inl bad ↦ absurd (grind arith)
          | inr size ↦
              let last : (load_whole slot image (flash_read memory (slot_address slot) total)).0
                  ≡ ok info =
                grind arith in
              elim (Bool-cases (total == 0)) [
                | inl zero_bytes ↦ absurd (ground (arith, flash_read-none memory slot total, last))
                | inr some_bytes ↦
                    let whole = flash_read-some memory slot total (ground arith) (ground arith) in
                    record {
                      header_accepted = header;
                      same_catalog = ground arith;
                      fits = ground arith;
                      some_bytes = ground arith;
                      accepted = sym (ap (λ o. (load_whole slot image o).0) whole) ∙ last;
                    }
              ]
        ]
      ]
    ]

pub Loads-load_slot :
    (slot : ℕ) (s : Storage) (info : Info)
    → Loads slot s info
    → load_slot slot s ≡ (ok info, whole_image slot s)
unfolding load_checked load_whole
Loads-load_slot slot s info h =
    let image = header_image slot s in
    let total = image_length image in
    let whole = flash_read-some s.flash.memory slot total h.some_bytes h.fits in
    let catalog : (read_u32 image off_catalog_crc != catalog_crc32) ≡ false =
      ground (arith, h.same_catalog) in
    let size : too_long total ≡ false = ground (arith, h.fits) in
    load_slot-checked slot s
    ∙ rw (h.header_accepted, catalog, size, whole, h.accepted, load_checked) refl
