-- ===== src/Storage/Built.antt =====
-- MID/j1939_profile_storage.c: the image that `prv_build_image` leaves in `s_image`.
use teep_j1939_patent.Base.{ℕ, ◌+◌, ◌-◌, ◌^◌, ◌≤◌, ◌<◌, ◌≡◌, refl, ◌∙◌}
use teep_j1939_patent.Base.{
  arith, List, Bool, inl, inr, u16, Bool-cases, get_or, length, length-set,
}
use teep_j1939_patent.Base.{ltb, ◌==◌, ◌||◌, set, if◌then◌else◌, get_or-set_ne}
use teep_j1939_patent.Catalog.{catalog_signal_count, catalog_crc32}
use teep_j1939_patent.ValueStore.{Store, get_config_crc}
use teep_j1939_patent.Storage.Bytes.{read_u32, write_u16, write_u32}
use teep_j1939_patent.Storage.Defs.{ok, storage_image_max_bytes, storage_header_bytes, off_sequence}
use teep_j1939_patent.Storage.Defs.{
  storage_magic, off_magic, off_format_version, off_header_length, off_catalog_crc, off_config_crc,
  off_image_crc, off_bitrate_bps, off_payload_length, off_signal_count, off_scalar_count,
  off_profile_id, off_blob_count, off_flags, off_reserved, off_valid_marker, format_version,
  flag_autostart, image_crc,
}
use teep_j1939_patent.Storage.Build.{Draft, build_start}
use teep_j1939_patent.Storage.Build.{build_records, build_header, build_image}
use teep_j1939_patent.Storage.Fields.{length-write_u16, length-write_u32, get_or-write_u16_other}
use teep_j1939_patent.Storage.Fields.{get_or-write_u32_other, read_u32-write_u32, read_u32-frame}
use teep_j1939_patent.Storage.Load.{IsImage}
use teep_j1939_patent.Storage.Drafted.{draft_of, draft_of-IsDraft}

-- `y` differs from `x` in bytes after the field of the sequence only, and in no byte's place.
record SameSequence (x y : List ℕ) : Type 0 where
  size : length y ≡ length x
  bytes : (j : ℕ) → off_sequence ≤ j → j < off_sequence + 4 → get_or y j 0 ≡ get_or x j 0

then_u32 :
    (at v : ℕ) {x y : List ℕ}
    → SameSequence x y
    → off_sequence + 4 ≤ at
    → SameSequence x (write_u32 y at v)
then_u32 at v {x = x} {y = y} h after = record {
  size = length-write_u32 y at v ∙ h.size;
  bytes = λ j low high. get_or-write_u32_other y at v j (inl (omega arith)) ∙ h.bytes j low high;
}

then_u16 :
    (at v : ℕ) {x y : List ℕ}
    → SameSequence x y
    → off_sequence + 4 ≤ at
    → SameSequence x (write_u16 y at v)
then_u16 at v {x = x} {y = y} h after = record {
  size = length-write_u16 y at v ∙ h.size;
  bytes = λ j low high. get_or-write_u16_other y at v j (inl (omega arith)) ∙ h.bytes j low high;
}

then_set :
    (at v : ℕ) {x y : List ℕ}
    → SameSequence x y
    → off_sequence + 4 ≤ at
    → SameSequence x (set y at v)
then_set at v {x = x} {y = y} h after = record {
  size = length-set y at v ∙ h.size;
  bytes = λ j low high. get_or-set_ne y at j v 0 (λ e. omega arith) ∙ h.bytes j low high;
}

-- The header up to its sequence
abbrev sequenced : ℕ → Draft → List ℕ
sequenced sequence d =
    let a = write_u32 d.image off_magic storage_magic in
    let b = write_u16 a off_format_version format_version in
    let c = write_u16 b off_header_length storage_header_bytes in
    let e = write_u32 c off_catalog_crc catalog_crc32 in write_u32 e off_sequence sequence

build_header-SameSequence :
    (values : Store) (profile_id bitrate_bps : ℕ) (autostart : Bool) (sequence : ℕ) (d : Draft)
    → SameSequence
        (sequenced sequence d)
        (build_header values profile_id bitrate_bps autostart sequence d)
unfolding build_header
build_header-SameSequence values profile_id bitrate_bps autostart sequence d =
    let f = sequenced sequence d in
    let start : SameSequence f f = record { size = refl; bytes = λ j low high. refl } in
    let g = then_u32 off_config_crc (get_config_crc values) start (omega arith) in
    let h = then_u32 off_image_crc 0 g (omega arith) in
    let i = then_u32 off_bitrate_bps bitrate_bps h (omega arith) in
    let j = then_u16 off_payload_length (u16 (d.offset - storage_header_bytes)) i (omega arith) in
    let k = then_u16 off_signal_count (u16 (d.scalar_count + d.blob_count)) j (omega arith) in
    let l = then_u16 off_scalar_count d.scalar_count k (omega arith) in
    let m = then_set off_profile_id profile_id l (omega arith) in
    let n = then_set off_blob_count d.blob_count m (omega arith) in
    let o = then_u16 off_flags (if autostart then flag_autostart else 0) n (omega arith) in
    let p = then_u16 off_reserved 0 o (omega arith) in
    then_u32 off_valid_marker 0xffff_ffff p (omega arith)

-- What a built image is, for the slot that it is written to
pub record Built (sequence total : ℕ) (image : List ℕ) : Type 0 where
  pub sized : IsImage image
  pub after_header : storage_header_bytes ≤ total
  pub fits : total ≤ storage_image_max_bytes
  pub numbered : read_u32 image off_sequence ≡ sequence

before_sequence : Draft → List ℕ
before_sequence d =
    let a = write_u32 d.image off_magic storage_magic in
    let b = write_u16 a off_format_version format_version in
    let c = write_u16 b off_header_length storage_header_bytes in
    write_u32 c off_catalog_crc catalog_crc32

before_sequence-IsImage : (d : Draft) → IsImage d.image → IsImage (before_sequence d)
unfolding before_sequence
before_sequence-IsImage d size =
    let a = write_u32 d.image off_magic storage_magic in
    let b = write_u16 a off_format_version format_version in
    let c = write_u16 b off_header_length storage_header_bytes in
    length-write_u32 c off_catalog_crc catalog_crc32
    ∙ length-write_u16 b off_header_length storage_header_bytes
    ∙ length-write_u16 a off_format_version format_version
    ∙ length-write_u32 d.image off_magic storage_magic
    ∙ size

sequenced-IsImage : (sequence : ℕ) (d : Draft) → IsImage d.image → IsImage (sequenced sequence d)
unfolding before_sequence
sequenced-IsImage sequence d size =
    length-write_u32 (before_sequence d) off_sequence sequence ∙ before_sequence-IsImage d size

sequenced-reads :
    (sequence : ℕ) (d : Draft)
    → IsImage d.image
    → sequence < 2 ^ 32
    → read_u32 (sequenced sequence d) off_sequence ≡ sequence
unfolding before_sequence
sequenced-reads sequence d size small =
    read_u32-write_u32 (before_sequence d) off_sequence sequence
      (omega (arith, before_sequence-IsImage d size)) small

refused : ℕ → Draft → Bool
refused blobs d = (u16 (d.scalar_count + d.blob_count) == 0) || ltb 1 blobs

pub build_image-Built :
    (values : Store) (profile_id bitrate_bps : ℕ) (autostart : Bool) (sequence total : ℕ)
    → sequence < 2 ^ 32
    → (build_image values profile_id bitrate_bps autostart sequence).0 ≡ ok total
    → Built sequence total (build_image values profile_id bitrate_bps autostart sequence).1
unfolding build_image draft_of refused
build_image-Built values profile_id bitrate_bps autostart sequence total small e =
    let built = build_records values catalog_signal_count 0 build_start in
    let d = draft_of values in
    let sound = draft_of-IsDraft values in
    let header = build_header values profile_id bitrate_bps autostart sequence d in
    let same = build_header-SameSequence values profile_id bitrate_bps autostart sequence d in
    let first = sequenced-reads sequence d sound.0 small in
    let final = then_u32 off_image_crc (image_crc header d.offset) same (omega arith) in
    elim (Bool-cases built.0) [
      | inr stopped ↦ absurd (grind arith)
      | inl whole ↦ elim (Bool-cases (refused d.blob_count d)) [
        | inl bad ↦ absurd (grind arith)
        | inr good ↦
            let length_is : d.offset ≡ total = grind arith in
            rw (whole, good, build_image)
              record {
                sized = final.size ∙ sequenced-IsImage sequence d sound.0;
                after_header = omega (arith, length_is, sound.1);
                fits = omega (arith, length_is, sound.2);
                numbered = read_u32-frame _ _ off_sequence final.bytes ∙ first;
              }
      ]
    ]

pub build_image-IsImage :
    (values : Store) (profile_id bitrate_bps : ℕ) (autostart : Bool) (sequence : ℕ)
    → IsImage (build_image values profile_id bitrate_bps autostart sequence).1
unfolding build_image draft_of refused
build_image-IsImage values profile_id bitrate_bps autostart sequence =
    let d = draft_of values in
    let sound = draft_of-IsDraft values in
    let built = build_records values catalog_signal_count 0 build_start in
    let header = build_header values profile_id bitrate_bps autostart sequence d in
    let same = build_header-SameSequence values profile_id bitrate_bps autostart sequence d in
    let final = then_u32 off_image_crc (image_crc header d.offset) same (omega arith) in
    elim (Bool-cases built.0) [
      | inr stopped ↦ rw (stopped, build_image) sound.0
      | inl whole ↦ elim (Bool-cases (refused d.blob_count d)) [
        | inl bad ↦ rw (whole, bad, build_image) sound.0
        | inr good ↦
            rw (whole, good, build_image) (final.size ∙ sequenced-IsImage sequence d sound.0)
      ]
    ]
