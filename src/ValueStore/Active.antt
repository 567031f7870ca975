-- ===== src/ValueStore/Active.antt =====
-- MID/j1939_value_store.c: the end of a transaction, and what is read of the active bank.
use teep_j1939_patent.Base.{ℕ, zero, suc, ◌+◌, ◌-◌, ◌%◌, List, get_or}
use teep_j1939_patent.Base.{Bool, true, false, not, ◌&&◌, ◌||◌, ltb, ◌==◌, ◌!=◌}
use teep_j1939_patent.Base.{Option, none, some, if◌then◌else◌, u16, ◌>>>◌}
use teep_j1939_patent.Catalog.{index_invalid, catalog_signal_count}
use teep_j1939_patent.Catalog.{active_mask_bytes}
use teep_j1939_patent.ValueStore.Defs.{Status, ok, unknown_key}
use teep_j1939_patent.ValueStore.Defs.{blob_incomplete}
use teep_j1939_patent.ValueStore.Defs.{txn_idle}
use teep_j1939_patent.ValueStore.Defs.{Bank, Store, active, staging, set_staging, staging_bank}
use teep_j1939_patent.ValueStore.Defs.{mask_test, is_blob}
use teep_j1939_patent.ValueStore.Defs.{check_index, check_blob, clear_blob, config_crc_of}
use teep_j1939_patent.ValueStore.Defs.{txn_ready}
use teep_j1939_patent.ValueStore.Ops.{Outcome}

-- The check of one record by the commit.
unfoldable pub record_status : Bank → ℕ → Status
record_status b i =
    if mask_test b.active_mask i
    then if is_blob i then check_blob b i else check_index i (get_or b.raw_value i 0)
    else ok

-- The validation loop of `J1939_Value_Store_Commit`: `left` records from `i` on, with its count.
unfoldable pub validate_loop : Bank → ℕ → ℕ → ℕ → Status × ℕ
validate_loop b zero i count = (ok, count)
validate_loop b (suc left) i count =
    let count' = if mask_test b.active_mask i then count + 1 else count in
    elim (record_status b i) [ ok ↦ validate_loop b left (i + 1) count' | bad ↦ (bad, count') ]

-- The last byte of the mask has bits beyond the catalog.
unfoldable pub tail_bits_set : Bank → Bool
tail_bits_set b =
    (catalog_signal_count % 8 != 0)
    && (get_or b.active_mask (active_mask_bytes - 1) 0 >>> (catalog_signal_count % 8) != 0)

-- The status that a commit of a ready transaction ends with, and the count of its records.
unfoldable pub commit_status : Store → Status × ℕ
commit_status s =
    let b = staging s in
    if s.blob_touched && (s.blob_written_count != b.blob_length)
    then (blob_incomplete, 0)
    else let (status, count) = validate_loop b catalog_signal_count 0 0 in
      elim status [
        | ok ↦ if tail_bits_set b then (unknown_key, count) else (ok, count)
        | bad ↦ (bad, count)
      ]

-- The staging bank without a blob whose record was removed.
unfoldable pub settle_blob : Bank → Bank
settle_blob b =
    if (b.blob_index != index_invalid) && not (mask_test b.active_mask b.blob_index)
    then clear_blob b
    else b

-- The generation after a commit: 16 bits, never 0.
unfoldable pub next_generation : ℕ → ℕ
next_generation g = if u16 (g + 1) == 0 then 1 else u16 (g + 1)

-- The switch of the banks.
unfoldable pub activate : Store → ℕ → Store
activate s count =
    let b = settle_blob (staging s) in
    record (set_staging s (record b { active_count = count; config_crc = config_crc_of b })) {
      active_bank = staging_bank s;
      generation = next_generation s.generation;
    }

-- What a commit and an abort do to the transaction.
abbrev pub close : Store → Store
close s = record s { txn_state = txn_idle; blob_touched = false; blob_written_count = 0 }

-- `J1939_Value_Store_Commit`; the generation that it reports is that of the store after it.
unfoldable pub commit : Store → Outcome
commit s = elim (txn_ready s) [
  | ok ↦
      let (status, count) = commit_status s in
      elim status [ ok ↦ (ok, close (activate s count)) | bad ↦ (bad, close s) ]
  | bad ↦ (bad, close s)
]

-- `J1939_Value_Store_Abort`
unfoldable pub abort : Store → Store
abort s = close s

-- `J1939_Value_Store_In_Transaction`
unfoldable pub in_transaction : Store → Bool
in_transaction s = elim s.txn_state [ txn_idle ↦ false | _ ↦ true ]

-- `J1939_Value_Store_Is_Active`
unfoldable pub is_active : Store → ℕ → Bool
is_active s catalog_index =
    ltb catalog_index catalog_signal_count && mask_test (active s).active_mask catalog_index

-- `J1939_Value_Store_Get_Raw`
unfoldable pub get_raw : Store → ℕ → Option ℕ
get_raw s catalog_index =
    if not (is_active s catalog_index) || is_blob catalog_index
    then none
    else some (get_or (active s).raw_value catalog_index 0)

-- `J1939_Value_Store_Get_Blob`: the bank's bytes and the length.
unfoldable pub get_blob : Store → ℕ → Option (List ℕ × ℕ)
get_blob s catalog_index =
    if not (is_active s catalog_index) || ((active s).blob_index != catalog_index)
    then none
    else some ((active s).blob, (active s).blob_length)

-- `J1939_Value_Store_Get_Active_Count`
abbrev pub get_active_count : Store → ℕ
get_active_count s = (active s).active_count

-- `J1939_Value_Store_Get_Config_Crc`
abbrev pub get_config_crc : Store → ℕ
get_config_crc s = (active s).config_crc
