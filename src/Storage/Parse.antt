-- ===== src/Storage/Parse.antt =====
-- MID/j1939_profile_storage.c: `prv_parse`, the walk over the records of an image.
use teep_j1939_patent.Base.{ℕ, zero, suc, ◌+◌, List, get_or, replicate, none}
use teep_j1939_patent.Base.{some, Bool, true, false, ◌&&◌, ◌||◌, not, ltb, leb, ◌==◌, ◌!=◌, u8, u16}
use teep_j1939_patent.Base.{if◌then◌else◌, sub16}
use teep_j1939_patent.Crc.{crc_update, crc_update_u16_le, crc_update_u32_le, crc_final}
use teep_j1939_patent.Catalog.{signal_at, is_blob_signal, index_from_key, index_invalid}
use teep_j1939_patent.Catalog.{catalog_signal_count, active_mask_bytes}
use teep_j1939_patent.ValueStore.{mask_test, mask_set, in_bounds, bytes_in_bounds}
use teep_j1939_patent.Profiles.{CustomerProfile, find_profile, profile_has_key, profile_id_custom}
use teep_j1939_patent.Storage.Bytes.{read_u16, read_u32, bytes_from}
use teep_j1939_patent.Storage.Defs.{Result, ok, failed, Info, image_blob_capacity, config_crc_start}
use teep_j1939_patent.Storage.Defs.{invalid_image, visitor_rejected, storage_header_bytes}
use teep_j1939_patent.Storage.Defs.{off_sequence, off_config_crc, off_bitrate_bps}
use teep_j1939_patent.Storage.Defs.{off_payload_length, off_signal_count, off_scalar_count}
use teep_j1939_patent.Storage.Defs.{off_profile_id, off_blob_count, off_flags}

-- The local variables of the walk
pub record Cursor : Type 0 where
  pub offset : ℕ
  pub previous_index : ℕ
  pub seen : List ℕ
  pub config_crc : ℕ
  pub actual_scalars : ℕ
  pub actual_blobs : ℕ

-- The two callbacks: whether the record is accepted, and the context after it
pub record Visitors (C : Type 0) : Type 0 where
  pub scalar_visitor : ℕ → ℕ → C → Bool × C
  pub blob_visitor : ℕ → List ℕ → C → Bool × C

-- `NULL` for both callbacks
abbrev pub no_visitors : Visitors Unit
no_visitors = record {
  scalar_visitor = λ key raw c. (true, c);
  blob_visitor = λ key bytes c. (true, c);
}

abbrev pub walk_start : Cursor
walk_start = record {
  offset = storage_header_bytes;
  previous_index = index_invalid;
  seen = replicate active_mask_bytes 0;
  config_crc = config_crc_start;
  actual_scalars = 0;
  actual_blobs = 0;
}

-- `(uint16_t)(end - offset)`
abbrev pub room : ℕ → Cursor → ℕ
room end c = sub16 end c.offset

-- The key of a record: two bytes, a signal of the catalog, after the one before it.
unfoldable pub parse_key : List ℕ → ℕ → Cursor → Result (ℕ × Cursor)
parse_key image end c =
    let key = read_u16 image c.offset in
    let index = index_from_key key in
    if ltb (room end c) 2
    then failed invalid_image
    else if (index == index_invalid)
        || ((c.previous_index != index_invalid) && leb index c.previous_index)
    then failed invalid_image
    else if mask_test c.seen index
    then failed invalid_image
    else ok (
      key,
      record c {
        offset = u16 (c.offset + 2);
        previous_index = index;
        seen = mask_set c.seen index true;
        config_crc = crc_update_u16_le c.config_crc key;
      },
    )

module _ {C : Type 0} (v : Visitors C) where
  -- The branch of a blob record, after its key
  unfoldable pub parse_blob : List ℕ → ℕ → ℕ → Cursor → C → Result Cursor × C
  parse_blob image end key c context =
      let signal = signal_at c.previous_index in
      let len = read_u16 image c.offset in
      let at = u16 (c.offset + 2) in
      let bytes = bytes_from image at len in
      let told = v.blob_visitor key bytes context in
      if ltb (room end c) 2
      then (failed invalid_image, context)
      else if (len == 0) || ltb (image_blob_capacity c.previous_index) len || ltb (sub16 end at) len
      then (failed invalid_image, context)
      else if not (bytes_in_bounds signal bytes)
      then (failed invalid_image, context)
      else if not told.0
      then (failed visitor_rejected, told.1)
      else (
        ok (record c {
          offset = u16 (at + len);
          config_crc = crc_update (crc_update_u16_le c.config_crc len) bytes;
          actual_blobs = u8 (c.actual_blobs + 1);
        }),
        told.1,
      )

  -- The branch of a scalar record, after its key
  unfoldable pub parse_scalar : List ℕ → ℕ → ℕ → Cursor → C → Result Cursor × C
  parse_scalar image end key c context =
      let raw = read_u32 image c.offset in
      let told = v.scalar_visitor key raw context in
      if ltb (room end c) 4
      then (failed invalid_image, context)
      else if not (in_bounds (signal_at c.previous_index) raw)
      then (failed invalid_image, context)
      else if not told.0
      then (failed visitor_rejected, told.1)
      else (
        ok (record c {
          offset = u16 (c.offset + 4);
          config_crc = crc_update_u32_le c.config_crc raw;
          actual_scalars = u16 (c.actual_scalars + 1);
        }),
        told.1,
      )

  -- One round of the loop
  unfoldable pub parse_record : List ℕ → ℕ → Cursor → C → Result Cursor × C
  parse_record image end c context = elim (parse_key image end c) [
    | failed status ↦ (failed status, context)
    | ok (key, d) ↦
        if is_blob_signal (signal_at d.previous_index)
        then parse_blob image end key d context
        else parse_scalar image end key d context
  ]

  -- The loop: `left` records from the cursor on
  unfoldable pub parse_records : List ℕ → ℕ → ℕ → Cursor → C → Result Cursor × C
  parse_records image end zero c context = (ok c, context)
  parse_records image end (suc left) c context =
      let record_read = parse_record image end c context in
      elim record_read.0 [
        | failed status ↦ (failed status, record_read.1)
        | ok d ↦ parse_records image end left d record_read.1
      ]

-- The loop that compares the records seen with the profile: the first `n` signals.
unfoldable pub matches_profile : CustomerProfile → List ℕ → ℕ → Bool
matches_profile profile seen zero = true
matches_profile profile seen (suc n) =
    let earlier = matches_profile profile seen n in
    let required = profile_has_key profile (signal_at n).signal_key in
    if mask_test seen n then required && earlier else not required && earlier

-- The check of the profile that an image names
unfoldable pub profile_accepted : ℕ → ℕ → List ℕ → Bool
profile_accepted profile_id signal_count seen =
    if profile_id == profile_id_custom then true else elim (find_profile profile_id) [
      | none ↦ false
      | some p ↦ (p.signal_count == signal_count) && matches_profile p seen catalog_signal_count
    ]

-- What `prv_parse` writes to `info`; the slot is the caller's.
abbrev pub info_of : List ℕ → Info
info_of image = record {
  sequence = read_u32 image off_sequence;
  config_crc = read_u32 image off_config_crc;
  bitrate_bps = read_u32 image off_bitrate_bps;
  signal_count = read_u16 image off_signal_count;
  scalar_count = read_u16 image off_scalar_count;
  flags = read_u16 image off_flags;
  profile_id = get_or image off_profile_id 0;
  blob_count = get_or image off_blob_count 0;
  slot = 0;
}

-- The counts of the header, before the walk
unfoldable pub counts_rejected : List ℕ → Bool
counts_rejected image =
    let signal_count = read_u16 image off_signal_count in
    let blob_count = get_or image off_blob_count 0 in
    ltb catalog_signal_count signal_count
    || (u16 (read_u16 image off_scalar_count + blob_count) != signal_count)
    || ltb 1 blob_count

-- The checks after the walk
unfoldable pub parse_end : List ℕ → ℕ → Cursor → Result Info
parse_end image end c =
    if (c.offset != end)
      || (c.actual_scalars != read_u16 image off_scalar_count)
      || (c.actual_blobs != get_or image off_blob_count 0)
      || (crc_final c.config_crc != read_u32 image off_config_crc)
    then failed invalid_image
    else if not
        (profile_accepted (get_or image off_profile_id 0) (read_u16 image off_signal_count) c.seen)
    then failed invalid_image
    else ok (info_of image)

-- `(uint16_t)(STORAGE_HEADER_BYTES + payload_length)`
abbrev pub image_length : List ℕ → ℕ
image_length image = u16 (storage_header_bytes + read_u16 image off_payload_length)

-- The end of `prv_parse`, from the outcome of the walk on
unfoldable pub finish_walk : {C : Type 0} → List ℕ → Result Cursor × C → Result Info × C
finish_walk image (failed status, after) = (failed status, after)
finish_walk image (ok c, after) = (parse_end image (image_length image) c, after)

-- `prv_parse`
unfoldable pub parse : {C : Type 0} → Visitors C → List ℕ → C → Result Info × C
parse v image context =
    let signal_count = read_u16 image off_signal_count in
    if counts_rejected image
    then (failed invalid_image, context)
    else finish_walk image
        (parse_records v image (image_length image) signal_count walk_start context)
