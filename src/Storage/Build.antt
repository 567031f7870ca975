-- ===== src/Storage/Build.antt =====
-- MID/j1939_profile_storage.c: `prv_build_image`.
use teep_j1939_patent.Base.{ℕ, zero, suc, ◌+◌, ◌-◌, List, take, set}
use teep_j1939_patent.Base.{replicate, none, some, Bool, true, false, ◌||◌, not}
use teep_j1939_patent.Base.{ltb, ◌==◌, u8, u16, if◌then◌else◌}
use teep_j1939_patent.Catalog.{signal_at, is_blob_signal, catalog_signal_count, catalog_crc32}
use teep_j1939_patent.ValueStore.{Store, is_active, get_raw, get_blob, get_config_crc}
use teep_j1939_patent.Storage.Bytes.{write_u16, write_u32, copy_in}
use teep_j1939_patent.Storage.Defs.{storage_magic, storage_header_bytes}
use teep_j1939_patent.Storage.Defs.{storage_image_max_bytes, off_magic}
use teep_j1939_patent.Storage.Defs.{off_format_version, off_header_length, off_catalog_crc}
use teep_j1939_patent.Storage.Defs.{off_sequence, off_config_crc, off_image_crc}
use teep_j1939_patent.Storage.Defs.{off_bitrate_bps, off_payload_length, off_signal_count}
use teep_j1939_patent.Storage.Defs.{off_scalar_count, off_profile_id, off_blob_count, off_flags}
use teep_j1939_patent.Storage.Defs.{off_reserved, off_valid_marker, format_version}
use teep_j1939_patent.Storage.Defs.{flag_autostart, image_crc, Result, ok, failed}
use teep_j1939_patent.Storage.Defs.{unsupported_config}

-- The local variables of `prv_build_image` and `s_image`
pub record Draft : Type 0 where
  pub image : List ℕ
  pub offset : ℕ
  pub scalar_count : ℕ
  pub blob_count : ℕ

abbrev pub build_start : Draft
build_start = record {
  image = replicate storage_image_max_bytes 0xff;
  offset = storage_header_bytes;
  scalar_count = 0;
  blob_count = 0;
}

-- The record of an active blob; false where the image is full or the blob is not there.
unfoldable pub build_blob : Store → ℕ → Draft → Bool × Draft
build_blob values i d = elim (get_blob values i) [
  | none ↦ (false, d)
  | some (bytes, len) ↦ if ltb storage_image_max_bytes (d.offset + 4 + len) then (false, d) else (
    true,
    record {
      image =
          copy_in
            (write_u16 (write_u16 d.image d.offset (signal_at i).signal_key) (d.offset + 2) len)
            (d.offset + 4) (take len bytes);
      offset = u16 (d.offset + 4 + len);
      scalar_count = d.scalar_count;
      blob_count = u8 (d.blob_count + 1);
    },
  )
]

-- The record of an active scalar
unfoldable pub build_scalar : Store → ℕ → Draft → Bool × Draft
build_scalar values i d = elim (get_raw values i) [
  | none ↦ (false, d)
  | some raw ↦ if ltb storage_image_max_bytes (d.offset + 6) then (false, d) else (
    true,
    record {
      image = write_u32 (write_u16 d.image d.offset (signal_at i).signal_key) (d.offset + 2) raw;
      offset = u16 (d.offset + 6);
      scalar_count = u16 (d.scalar_count + 1);
      blob_count = d.blob_count;
    },
  )
]

-- One round of the loop
unfoldable pub build_record : Store → ℕ → Draft → Bool × Draft
build_record values i d =
    if not (is_active values i)
    then (true, d)
    else if is_blob_signal (signal_at i)
    then build_blob values i d
    else build_scalar values i d

-- The loop: `left` signals from `i` on
unfoldable pub build_records : Store → ℕ → ℕ → Draft → Bool × Draft
build_records values zero i d = (true, d)
build_records values (suc left) i d =
    let built = build_record values i d in
    let rest = build_records values left (i + 1) built.1 in
    if built.0 then rest else (false, built.1)

-- The header, whose checksum is still zero
unfoldable pub build_header : Store → ℕ → ℕ → Bool → ℕ → Draft → List ℕ
build_header values profile_id bitrate_bps autostart sequence d =
    let signal_count = u16 (d.scalar_count + d.blob_count) in
    let a = write_u32 d.image off_magic storage_magic in
    let b = write_u16 a off_format_version format_version in
    let c = write_u16 b off_header_length storage_header_bytes in
    let e = write_u32 c off_catalog_crc catalog_crc32 in
    let f = write_u32 e off_sequence sequence in
    let g = write_u32 f off_config_crc (get_config_crc values) in
    let h = write_u32 g off_image_crc 0 in
    let i = write_u32 h off_bitrate_bps bitrate_bps in
    let j = write_u16 i off_payload_length (u16 (d.offset - storage_header_bytes)) in
    let k = write_u16 j off_signal_count signal_count in
    let l = write_u16 k off_scalar_count d.scalar_count in
    let m = set l off_profile_id profile_id in
    let n = set m off_blob_count d.blob_count in
    let o = write_u16 n off_flags (if autostart then flag_autostart else 0) in
    let p = write_u16 o off_reserved 0 in write_u32 p off_valid_marker 0xffff_ffff

-- `prv_build_image`: the length, and `s_image` after it
unfoldable pub build_image : Store → ℕ → ℕ → Bool → ℕ → Result ℕ × List ℕ
build_image values profile_id bitrate_bps autostart sequence =
    let built = build_records values catalog_signal_count 0 build_start in
    let d = built.1 in
    let header = build_header values profile_id bitrate_bps autostart sequence d in
    if not built.0
    then (failed unsupported_config, d.image)
    else if (u16 (d.scalar_count + d.blob_count) == 0) || ltb 1 d.blob_count
    then (failed unsupported_config, d.image)
    else (ok d.offset, write_u32 header off_image_crc (image_crc header d.offset))
