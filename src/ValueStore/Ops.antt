-- ===== src/ValueStore/Ops.antt =====
-- MID/j1939_value_store.c: the start of a transaction and the operations that stage values.
use teep_j1939_patent.Base.{ℕ, ◌+◌, List, [], ◌∷◌, set, length}
use teep_j1939_patent.Base.{replicate, Bool, true, false, not, ◌&&◌, ◌||◌, ltb, leb, ◌==◌, ◌!=◌}
use teep_j1939_patent.Base.{Option, none, some, if◌then◌else◌, sub16, u16}
use teep_j1939_patent.Catalog.{signal_at, index_from_key, index_invalid, catalog_signal_count}
use teep_j1939_patent.Catalog.{active_mask_bytes}
use teep_j1939_patent.ValueStore.Defs.{Status, ok, unknown_key, unsupported_signal}
use teep_j1939_patent.ValueStore.Defs.{value_out_of_range, transaction_open}
use teep_j1939_patent.ValueStore.Defs.{resource_full}
use teep_j1939_patent.ValueStore.Defs.{txn_idle, txn_open}
use teep_j1939_patent.ValueStore.Defs.{BeginMode, begin_empty, begin_copy_active}
use teep_j1939_patent.ValueStore.Defs.{Bank, Store, active, staging, set_staging}
use teep_j1939_patent.ValueStore.Defs.{mask_test, mask_set, is_blob, blob_capacity, bytes_in_bounds}
use teep_j1939_patent.ValueStore.Defs.{check_index, clear_blob, config_crc_of}
use teep_j1939_patent.ValueStore.Defs.{reject, txn_ready, blob_max_bytes, blob_mask_bytes}

-- What every operation returns: its status and the store after it.
abbrev pub Outcome : Type 0
Outcome = Status × Store

-- A bank after `memset` and `prv_clear_blob`.
abbrev pub empty_bank : Bank
empty_bank = record {
  raw_value = replicate catalog_signal_count 0;
  config_crc = 0;
  blob = replicate blob_max_bytes 0;
  blob_length = 0;
  blob_index = index_invalid;
  active_mask = replicate active_mask_bytes 0;
  active_count = 0;
}

-- `J1939_Value_Store_Init`
unfoldable pub init : Store
init =
    let b = record empty_bank { config_crc = config_crc_of empty_bank } in
    record {
      bank_0 = b;
      bank_1 = b;
      generation = 0;
      active_bank = 0;
      txn_state = txn_idle;
      blob_written = replicate blob_mask_bytes 0;
      blob_written_count = 0;
      blob_touched = false;
    }

-- `J1939_Value_Store_Check_Raw`
unfoldable pub check_raw : ℕ → ℕ → Status
check_raw signal_key raw_value =
    let index = index_from_key signal_key in
    if index == index_invalid then unknown_key else check_index index raw_value

-- The staging bank at the start of a transaction.
unfoldable pub begin_bank : BeginMode → Bank → Bank → Bank
begin_bank begin_copy_active from to = record to {
  raw_value = from.raw_value;
  active_mask = from.active_mask;
  blob = from.blob;
  blob_length = from.blob_length;
  blob_index = from.blob_index;
}
begin_bank begin_empty from to = clear_blob (record to {
  raw_value = replicate catalog_signal_count 0;
  active_mask = replicate active_mask_bytes 0;
})

-- `J1939_Value_Store_Begin`
unfoldable pub begin : Store → BeginMode → Outcome
begin s start = elim s.txn_state [
  | txn_idle ↦ (
    ok,
    record (set_staging s (begin_bank start (active s) (staging s))) {
      blob_written = replicate blob_mask_bytes 0;
      blob_written_count = 0;
      blob_touched = false;
      txn_state = txn_open;
    },
  )
  | _ ↦ (transaction_open, s)
]

-- The two writes of `J1939_Value_Store_Set_Raw`.
unfoldable pub put_raw : Bank → ℕ → ℕ → Bank
put_raw b index raw_value = record b {
  raw_value = set b.raw_value index raw_value;
  active_mask = mask_set b.active_mask index true;
}

-- `J1939_Value_Store_Set_Raw`
unfoldable pub set_raw : Store → ℕ → ℕ → Outcome
set_raw s signal_key raw_value = elim (txn_ready s) [
  | ok ↦ elim (check_raw signal_key raw_value) [
    | ok ↦ (ok, set_staging s (put_raw (staging s) (index_from_key signal_key) raw_value))
    | bad ↦ reject s bad
  ]
  | bad ↦ (bad, s)
]

-- The variables that the copying loop of `J1939_Value_Store_Write_Blob` changes.
pub record Chunk : Type 0 where
  pub bytes : List ℕ
  pub written : List ℕ
  pub count : ℕ

-- One byte of the copying loop.
unfoldable pub put_byte : ℕ → ℕ → Chunk → Chunk
put_byte pos b c = record {
  bytes = set c.bytes pos b;
  written = if mask_test c.written pos then c.written else mask_set c.written pos true;
  count = if mask_test c.written pos then c.count else u16 (c.count + 1);
}

-- The copying loop, for `data[i..count)` at position `offset + i`.
unfoldable pub put_bytes : ℕ → List ℕ → Chunk → Chunk
put_bytes pos [] c = c
put_bytes pos (b ∷ bs) c = put_bytes (pos + 1) bs (put_byte (u16 pos) b c)

-- The condition under which a chunk is refused.
unfoldable pub chunk_misplaced : Store → ℕ → ℕ → ℕ → ℕ → Bool
chunk_misplaced s index total_length offset count =
    (total_length == 0)
    || ltb (blob_capacity index) total_length
    || (count == 0)
    || leb total_length offset
    || ltb (sub16 total_length offset) count
    || (s.blob_touched && (total_length != (staging s).blob_length))

-- The staged blob before the copying loop: the first chunk of a transaction clears it.
unfoldable pub touch_blob : Store → ℕ → ℕ → Bank
touch_blob s index total_length = if s.blob_touched then staging s else record (staging s) {
  blob = replicate blob_max_bytes 0;
  blob_length = total_length;
  blob_index = index;
}

-- The writes of an accepted chunk.
unfoldable pub put_chunk : Store → ℕ → ℕ → ℕ → List ℕ → Store
put_chunk s index total_length offset bytes =
    let b = touch_blob s index total_length in
    let c =
      put_bytes offset bytes
        (record { bytes = b.blob; written = s.blob_written; count = s.blob_written_count }) in
    record (set_staging s
      (record b { blob = c.bytes; active_mask = mask_set b.active_mask index true })) {
        blob_written = c.written;
        blob_written_count = c.count;
        blob_touched = true;
      }

-- `J1939_Value_Store_Write_Blob` behind its NULL check; the list is `data[0..count)`.
unfoldable pub write_blob_bytes : Store → ℕ → ℕ → ℕ → List ℕ → Outcome
write_blob_bytes s index total_length offset bytes =
    let b = staging s in
    if (b.blob_index != index_invalid) && (b.blob_index != index)
    then reject s resource_full
    else if chunk_misplaced s index total_length offset (length bytes)
    then reject s value_out_of_range
    else if not (bytes_in_bounds (signal_at index) bytes)
    then reject s value_out_of_range
    else (ok, put_chunk s index total_length offset bytes)

-- `J1939_Value_Store_Write_Blob`; `none` is a NULL pointer.
unfoldable pub write_blob : Store → ℕ → ℕ → ℕ → Option (List ℕ) → Outcome
write_blob s signal_key total_length offset bytes =
    let index = index_from_key signal_key in
    elim (txn_ready s) [
      | ok ↦
          if index == index_invalid
          then reject s unknown_key
          else if not (is_blob index)
          then reject s unsupported_signal
          else elim bytes [
            | none ↦ reject s unsupported_signal
            | some bs ↦ write_blob_bytes s index total_length offset bs
          ]
      | bad ↦ (bad, s)
    ]

-- `J1939_Value_Store_Staged_Blob_Bytes`
unfoldable pub staged_blob_bytes : Store → ℕ
staged_blob_bytes s = elim s.txn_state [ txn_idle ↦ 0 | _ ↦ s.blob_written_count ]

-- The writes of `J1939_Value_Store_Remove`.
unfoldable pub drop_record : Store → ℕ → Store
drop_record s index =
    let b = record (staging s) { active_mask = mask_set (staging s).active_mask index false } in
    if b.blob_index == index
    then record (set_staging s (clear_blob b)) {
      blob_written = replicate blob_mask_bytes 0;
      blob_written_count = 0;
      blob_touched = false;
    }
    else set_staging s b

-- `J1939_Value_Store_Remove`
unfoldable pub remove : Store → ℕ → Outcome
remove s signal_key =
    let index = index_from_key signal_key in
    elim (txn_ready s) [
      | ok ↦ if index == index_invalid then reject s unknown_key else (ok, drop_record s index)
      | bad ↦ (bad, s)
    ]
