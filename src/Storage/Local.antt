-- ===== src/Storage/Local.antt =====
-- MID/j1939_profile_storage.c: a slot that loads keeps loading while its bytes stay the same.
use teep_j1939_patent.Base.{ℕ, ◌+◌, ◌≤◌, ◌<◌, ◌≡◌, ◌∙◌, sym, arith, List, get_or}
use teep_j1939_patent.Base.{Bool-cases, inl, inr, ltb, ◌⊎◌, subst}
use teep_j1939_patent.HalFlash.{bytes_at}
use teep_j1939_patent.Storage.Bytes.{copy_in}
use teep_j1939_patent.Storage.Defs.{Info, Storage, slot_address, storage_header_bytes}
use teep_j1939_patent.Storage.Defs.{storage_image_max_bytes, off_catalog_crc}
use teep_j1939_patent.Storage.Parse.{image_length, info_of}
use teep_j1939_patent.Storage.Reads.{SameBelow, read_u32_same, length-copy_in, copy_in_within}
use teep_j1939_patent.Storage.Reads.{copy_in_after, length-bytes_at, get_or-bytes_at}
use teep_j1939_patent.Storage.Accepted.{image_length-same}
use teep_j1939_patent.Storage.Load.{IsImage, SameSlot, Loads}
use teep_j1939_patent.Storage.Load.{header_image, whole_image, load_image-accepted, load_image_same}
use teep_j1939_patent.Storage.Load.{header_rejected_same}

copied :
    (image : List ℕ) (m : ℕ → ℕ) (a n j : ℕ)
    → IsImage image
    → n ≤ storage_image_max_bytes
    → j < n
    → get_or (copy_in image 0 (bytes_at m a n)) j 0 ≡ m (a + j)
copied image m a n j size fits below =
    let from_zero : 0 + j ≡ j = omega arith in
    let count = length-bytes_at m a n in
    subst (λ k. get_or (copy_in image 0 (bytes_at m a n)) k 0 ≡ get_or (bytes_at m a n) j 0)
      from_zero
      (copy_in_within image 0 (bytes_at m a n) j 0 (omega (arith, count))
        (omega (arith, count, size)))
    ∙ get_or-bytes_at m a n j 0 below

header_image-IsImage : (slot : ℕ) (s : Storage) → IsImage s.image → IsImage (header_image slot s)
header_image-IsImage slot s size =
    length-copy_in s.image 0 (bytes_at s.flash.memory (slot_address slot) storage_header_bytes)
    ∙ size

pub whole_image-IsImage : (slot : ℕ) (s : Storage) → IsImage s.image → IsImage (whole_image slot s)
whole_image-IsImage slot s size =
    length-copy_in (header_image slot s) 0
      (bytes_at s.flash.memory (slot_address slot) (image_length (header_image slot s)))
    ∙ header_image-IsImage slot s size

header_image-byte :
    (slot : ℕ) (s : Storage) (j : ℕ)
    → IsImage s.image
    → j < storage_header_bytes
    → get_or (header_image slot s) j 0 ≡ s.flash.memory (slot_address slot + j)
header_image-byte slot s j size below =
    copied s.image s.flash.memory (slot_address slot) storage_header_bytes j size (omega arith)
      below

-- The buffer holds the slot's bytes, those of the header even where the second read was short.
pub whole_image-byte :
    (slot : ℕ) (s : Storage) (j : ℕ)
    → IsImage s.image
    → image_length (header_image slot s) ≤ storage_image_max_bytes
    → (j < storage_header_bytes) ⊎ (j < image_length (header_image slot s))
    → get_or (whole_image slot s) j 0 ≡ s.flash.memory (slot_address slot + j)
whole_image-byte slot s j size fits at =
    let total = image_length (header_image slot s) in
    let a = slot_address slot in
    elim (Bool-cases (ltb j total)) [
      | inl below ↦
          copied (header_image slot s) s.flash.memory a total j (header_image-IsImage slot s size)
            fits (ground arith)
      | inr above ↦
          copy_in_after (header_image slot s) 0 (bytes_at s.flash.memory a total) j 0
            (ground (arith, length-bytes_at s.flash.memory a total))
          ∙ header_image-byte slot s j size (ground (arith, at))
    ]

-- The buffer after a load has the header that was checked.
header_kept :
    (slot : ℕ) (s : Storage)
    → IsImage s.image
    → image_length (header_image slot s) ≤ storage_image_max_bytes
    → SameBelow storage_header_bytes (whole_image slot s) (header_image slot s)
header_kept slot s size fits j below =
    whole_image-byte slot s j size fits (inl below) ∙ sym (header_image-byte slot s j size below)

pub Loads-same :
    (slot : ℕ) (s t : Storage) (info : Info)
    → IsImage s.image
    → IsImage t.image
    → SameSlot slot s.flash.memory t.flash.memory
    → Loads slot s info
    → Loads slot t info
Loads-same slot s t info ls lt same h =
    let header : SameBelow storage_header_bytes (header_image slot s) (header_image slot t) =
      λ j below.
        header_image-byte slot s j ls below
        ∙ same j (omega arith)
        ∙ sym (header_image-byte slot t j lt below) in
    let total = image_length-same (header_image slot s) (header_image slot t) header in
    let kept = image_length-same _ _ (header_kept slot s ls h.fits) in
    let long = (load_image-accepted slot (whole_image slot s) info h.accepted).1 in
    let whole : SameBelow (image_length (whole_image slot s)) (whole_image slot s)
        (whole_image slot t) =
      λ j below.
        whole_image-byte slot s j ls h.fits (inr (omega (arith, kept)))
        ∙ same j (omega (arith, kept, h.fits))
        ∙ sym (
            whole_image-byte slot t j lt (omega (arith, total, h.fits))
              (inr (omega (arith, kept, total)))) in
    record {
      header_accepted = sym (header_rejected_same _ _ header) ∙ h.header_accepted;
      same_catalog =
          sym (read_u32_same storage_header_bytes _ _ off_catalog_crc header (omega arith))
          ∙ h.same_catalog;
      fits = omega (arith, total, h.fits);
      some_bytes = omega (arith, total, h.some_bytes);
      accepted =
          load_image_same slot _ _ info
            (whole_image-IsImage slot s ls, whole_image-IsImage slot t lt, whole) h.accepted;
    }

-- The loaded buffer starts with the slot's header, and the info is read from it.
pub record Holds (slot : ℕ) (m : ℕ → ℕ) (image : List ℕ) (info : Info) : Type 0 where
  pub sized : IsImage image
  pub header : (j : ℕ) → j < storage_header_bytes → get_or image j 0 ≡ m (slot_address slot + j)
  pub body : (j : ℕ) → j < image_length image → get_or image j 0 ≡ m (slot_address slot + j)
  pub long : storage_header_bytes ≤ image_length image
  pub short : image_length image ≤ storage_image_max_bytes
  pub read : info ≡ record (info_of image) { slot = slot }

pub Loads-Holds :
    (slot : ℕ) (s : Storage) (info : Info)
    → IsImage s.image
    → Loads slot s info
    → Holds slot s.flash.memory (whole_image slot s) info
Loads-Holds slot s info size h =
    let kept = image_length-same _ _ (header_kept slot s size h.fits) in
    let facts = load_image-accepted slot (whole_image slot s) info h.accepted in
    record {
      sized = whole_image-IsImage slot s size;
      header = λ j below. whole_image-byte slot s j size h.fits (inl below);
      body = λ j below. whole_image-byte slot s j size h.fits (inr (omega (arith, kept)));
      long = facts.1;
      short = omega (arith, kept, h.fits);
      read = facts.0;
    }
