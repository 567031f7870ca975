-- ===== src/Storage/Drafted.antt =====
-- MID/j1939_profile_storage.c: the records that `prv_build_image` lays out.
use teep_j1939_patent.Base.{ℕ, zero, suc, ◌+◌, ◌≤◌, ◌∙◌}
use teep_j1939_patent.Base.{arith, inl, inr, Bool-cases, take, length-replicate}
use teep_j1939_patent.Base.{ltb, Option-cases}
use teep_j1939_patent.Catalog.{signal_at, is_blob_signal, catalog_signal_count}
use teep_j1939_patent.ValueStore.{Store, get_raw, get_blob, is_active}
use teep_j1939_patent.Storage.Bytes.{write_u16}
use teep_j1939_patent.Storage.Defs.{storage_image_max_bytes, storage_header_bytes}
use teep_j1939_patent.Storage.Build.{Draft, build_start, build_blob, build_scalar, build_record}
use teep_j1939_patent.Storage.Build.{build_records}
use teep_j1939_patent.Storage.Reads.{length-copy_in}
use teep_j1939_patent.Storage.Fields.{length-write_u16, length-write_u32}
use teep_j1939_patent.Storage.Load.{IsImage}

-- The records lie after the header and inside the image.
abbrev pub IsDraft : Draft → Type 0
IsDraft d =
    IsImage d.image × (storage_header_bytes ≤ d.offset) × (d.offset ≤ storage_image_max_bytes)

build_scalar-IsDraft :
    (values : Store) (i : ℕ) (d : Draft) → IsDraft d → IsDraft (build_scalar values i d).1
unfolding build_scalar
build_scalar-IsDraft values i d h = elim (Option-cases (get_raw values i)) [
  | inl e ↦ rw (e, build_scalar) h
  | inr (raw, e) ↦
      let key = (signal_at i).signal_key in
      elim (Bool-cases (ltb storage_image_max_bytes (d.offset + 6))) [
        | inl full ↦ rw (e, full, build_scalar) h
        | inr room ↦
            rw (e, room, build_scalar)
              (
                length-write_u32 (write_u16 d.image d.offset key) (d.offset + 2) raw
                    ∙ length-write_u16 d.image d.offset key
                    ∙ h.0,
                ground (arith, h.1),
                ground arith,
              )
      ]
]

build_blob-IsDraft :
    (values : Store) (i : ℕ) (d : Draft) → IsDraft d → IsDraft (build_blob values i d).1
unfolding build_blob
build_blob-IsDraft values i d h = elim (Option-cases (get_blob values i)) [
  | inl e ↦ rw (e, build_blob) h
  | inr ((bytes, len), e) ↦
      let key = (signal_at i).signal_key in
      let keyed = write_u16 d.image d.offset key in
      elim (Bool-cases (ltb storage_image_max_bytes (d.offset + 4 + len))) [
        | inl full ↦ rw (e, full, build_blob) h
        | inr room ↦
            rw (e, room, build_blob)
              (
                length-copy_in (write_u16 keyed (d.offset + 2) len) (d.offset + 4) (take len bytes)
                    ∙ length-write_u16 keyed (d.offset + 2) len
                    ∙ length-write_u16 d.image d.offset key
                    ∙ h.0,
                ground (arith, h.1),
                ground arith,
              )
      ]
]

build_record-IsDraft :
    (values : Store) (i : ℕ) (d : Draft) → IsDraft d → IsDraft (build_record values i d).1
unfolding build_record
build_record-IsDraft values i d h = elim (Bool-cases (is_active values i)) [
  | inr off ↦ rw (off, build_record) h
  | inl on ↦ elim (Bool-cases (is_blob_signal (signal_at i))) [
    | inl blob ↦ rw (on, blob, build_record) (build_blob-IsDraft values i d h)
    | inr scalar ↦ rw (on, scalar, build_record) (build_scalar-IsDraft values i d h)
  ]
]

build_records-IsDraft :
    (values : Store) (left i : ℕ) (d : Draft)
    → IsDraft d
    → IsDraft (build_records values left i d).1
unfolding build_records
build_records-IsDraft values zero i d h = h
build_records-IsDraft values (suc left) i d h =
    let step = build_record-IsDraft values i d h in
    elim (Bool-cases (build_record values i d).0) [
      | inr stopped ↦ rw (stopped, build_records) step
      | inl built ↦
          rw (built, build_records)
            (build_records-IsDraft values left (i + 1) (build_record values i d).1 step)
    ]

unfoldable pub draft_of : Store → Draft
draft_of values = (build_records values catalog_signal_count 0 build_start).1

pub draft_of-IsDraft : (values : Store) → IsDraft (draft_of values)
unfolding draft_of
draft_of-IsDraft values =
    build_records-IsDraft values catalog_signal_count 0 build_start
      (length-replicate {A = ℕ} storage_image_max_bytes 0xff, omega arith, omega arith)
