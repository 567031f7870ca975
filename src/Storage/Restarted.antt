-- ===== src/Storage/Restarted.antt =====
-- MID/j1939_profile_storage.c: the image that `Profile_Storage_Set_Autostart` makes of a loaded one.
use teep_j1939_patent.Base.{ℕ, ◌+◌, ◌≤◌, ◌<◌, ◌^◌, ◌≡◌, ◌∙◌, ap, arith, List, Bool, inl, inr, ◌⊎◌}
use teep_j1939_patent.Base.{get_or, if◌then◌else◌, u16}
use teep_j1939_patent.Storage.Bytes.{read_u16, read_u32, write_u16, write_u32}
use teep_j1939_patent.Storage.Defs.{
  storage_image_max_bytes, storage_header_bytes, off_sequence, image_crc,
}
use teep_j1939_patent.Storage.Defs.{
  off_flags, off_valid_marker, off_image_crc, off_payload_length, flag_autostart,
}
use teep_j1939_patent.Storage.Parse.{image_length}
use teep_j1939_patent.Storage.Save.{autostart_image}
use teep_j1939_patent.Storage.Fields.{length-write_u16, length-write_u32, get_or-write_u16_other}
use teep_j1939_patent.Storage.Fields.{
  get_or-write_u32_other, read_u32-write_u32, read_u32-frame, read_u16-frame,
}
use teep_j1939_patent.Storage.Fields.{read_u16-write_u16}
use teep_j1939_patent.Storage.Load.{IsImage}
use teep_j1939_patent.Storage.Built.{Built}

-- The bytes that the change of the autostart flag leaves alone
abbrev pub Untouched : ℕ → Type 0
Untouched j =
    ((j < off_sequence) ⊎ (off_sequence + 4 ≤ j))
    × ((j < off_image_crc) ⊎ (off_image_crc + 4 ≤ j))
    × ((j < off_flags) ⊎ (off_flags + 2 ≤ j))
    × ((j < off_valid_marker) ⊎ (off_valid_marker + 4 ≤ j))

module _ (image : List ℕ) (sequence : ℕ) (enabled : Bool) where
  -- The image with its checksum
  abbrev pub restarted : List ℕ
  restarted =
      let changed = autostart_image image sequence enabled in
      write_u32 changed off_image_crc (image_crc changed (image_length changed))

  abbrev numbered_image : List ℕ
  numbered_image = write_u32 image off_sequence sequence

  abbrev flag_value : ℕ
  flag_value = if enabled then flag_autostart else 0

  abbrev flagged_image : List ℕ
  flagged_image = write_u16 numbered_image off_flags flag_value

  abbrev marked_image : List ℕ
  marked_image = write_u32 flagged_image off_valid_marker 0xffff_ffff

  abbrev sum_of : List ℕ → ℕ
  sum_of changed = image_crc changed (image_length changed)

  -- The last two writes are of the checksum's field.
  after_flags :
      (j : ℕ)
      → (j < off_image_crc) ⊎ (off_image_crc + 4 ≤ j)
      → (j < off_valid_marker) ⊎ (off_valid_marker + 4 ≤ j)
      → get_or restarted j 0 ≡ get_or flagged_image j 0
  unfolding autostart_image
  after_flags j crc marker =
      get_or-write_u32_other (write_u32 marked_image off_image_crc 0) off_image_crc
        (sum_of (write_u32 marked_image off_image_crc 0)) j crc
      ∙ get_or-write_u32_other marked_image off_image_crc 0 j crc
      ∙ get_or-write_u32_other flagged_image off_valid_marker 0xffff_ffff j marker

  after_sequence :
      (j : ℕ)
      → (j < off_image_crc) ⊎ (off_image_crc + 4 ≤ j)
      → (j < off_valid_marker) ⊎ (off_valid_marker + 4 ≤ j)
      → (j < off_flags) ⊎ (off_flags + 2 ≤ j)
      → get_or restarted j 0 ≡ get_or numbered_image j 0
  after_sequence j crc marker flags =
      after_flags j crc marker ∙ get_or-write_u16_other numbered_image off_flags flag_value j flags

  pub restarted-Untouched : (j : ℕ) → Untouched j → get_or restarted j 0 ≡ get_or image j 0
  restarted-Untouched j (seq, crc, flags, marker) =
      after_sequence j crc marker flags ∙ get_or-write_u32_other image off_sequence sequence j seq

  restarted-IsImage : IsImage image → IsImage restarted
  unfolding autostart_image
  restarted-IsImage size =
      length-write_u32 (write_u32 marked_image off_image_crc 0) off_image_crc
        (sum_of (write_u32 marked_image off_image_crc 0))
      ∙ length-write_u32 marked_image off_image_crc 0
      ∙ length-write_u32 flagged_image off_valid_marker 0xffff_ffff
      ∙ length-write_u16 numbered_image off_flags flag_value
      ∙ length-write_u32 image off_sequence sequence
      ∙ size

  pub changed-length : image_length (autostart_image image sequence enabled) ≡ image_length image
  unfolding autostart_image
  changed-length =
      ap (λ n. u16 (storage_header_bytes + n))
        (read_u16-frame (autostart_image image sequence enabled) image off_payload_length
          (λ j low high.
            get_or-write_u32_other marked_image off_image_crc 0 j (inr (omega arith))
            ∙ get_or-write_u32_other flagged_image off_valid_marker 0xffff_ffff j
                (inl (omega arith))
            ∙ get_or-write_u16_other numbered_image off_flags flag_value j (inl (omega arith))
            ∙ get_or-write_u32_other image off_sequence sequence j (inr (omega arith))))

  pub restarted_sequence :
      IsImage image → sequence < 2 ^ 32 → read_u32 restarted off_sequence ≡ sequence
  restarted_sequence size small =
      read_u32-frame restarted numbered_image off_sequence
        (λ j low high. after_sequence j (inl (omega arith)) (inl (omega arith)) (inl (omega arith)))
      ∙ read_u32-write_u32 image off_sequence sequence (omega (arith, size)) small

  pub restarted_flags : IsImage image → read_u16 restarted off_flags ≡ flag_value
  restarted_flags size =
      read_u16-frame restarted flagged_image off_flags
        (λ j low high. after_flags j (inr (omega arith)) (inl (omega arith)))
      ∙ read_u16-write_u16 numbered_image off_flags flag_value
          (omega (arith, size, length-write_u32 image off_sequence sequence)) (ground arith)

  pub restarted-Built :
      IsImage image
      → storage_header_bytes ≤ image_length image
      → image_length image ≤ storage_image_max_bytes
      → sequence < 2 ^ 32
      → Built sequence (image_length (autostart_image image sequence enabled)) restarted
  restarted-Built size long short small = record {
    sized = restarted-IsImage size;
    after_header = omega (arith, changed-length, long);
    fits = omega (arith, changed-length, short);
    numbered = restarted_sequence size small;
  }
