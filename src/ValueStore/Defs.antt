-- ===== src/ValueStore/Defs.antt =====
-- MID/j1939_value_store.{h,c}: the state, its helpers and the validation of one bank.
use teep_j1939_patent.Base.{ℕ, zero, suc, ◌+◌, ◌/◌, ◌%◌, List, [], ◌∷◌, get_or, set, take}
use teep_j1939_patent.Base.{replicate, Bool, true, not, ◌&&◌, ◌||◌, ltb, ◌==◌, ◌!=◌}
use teep_j1939_patent.Base.{if◌then◌else◌, bit_test, bit_assign, bit_xor, u8, u16}
use teep_j1939_patent.Crc.{crc_init, crc_update, crc_update_u16_le, crc_update_u32_le, crc_final}
use teep_j1939_patent.Catalog.{CatalogSignal, signal_at, is_blob_signal}
use teep_j1939_patent.Catalog.{catalog_signal_count, max_payload_bytes}
use teep_j1939_patent.Catalog.{index_invalid, catalog_crc32}

-- `J1939_Value_Store_Status_t`
pub data Status : Type 0 where
  ok unknown_key unsupported_signal value_out_of_range no_transaction transaction_open : Status
  transaction_rejected blob_incomplete resource_full : Status

-- `Vs_Txn_State_t`
pub data TxnState : Type 0 where
  txn_idle txn_open txn_rejected : TxnState

-- `J1939_Value_Store_Begin_t`
pub data BeginMode : Type 0 where
  begin_empty begin_copy_active : BeginMode

abbrev pub blob_max_bytes : ℕ
blob_max_bytes = max_payload_bytes

-- `VS_BLOB_MASK_BYTES`
abbrev pub blob_mask_bytes : ℕ
blob_mask_bytes = (blob_max_bytes + 7) / 8

-- The members of `J1939_Value_Banks_t` that exist once per bank.
pub record Bank : Type 0 where
  pub raw_value : List ℕ
  pub config_crc : ℕ
  pub blob : List ℕ
  pub blob_length : ℕ
  pub blob_index : ℕ
  pub active_mask : List ℕ
  pub active_count : ℕ

-- `J1939_Value_Banks_t`
pub record Store : Type 0 where
  pub bank_0 : Bank
  pub bank_1 : Bank
  pub generation : ℕ
  pub active_bank : ℕ
  pub txn_state : TxnState
  pub blob_written : List ℕ
  pub blob_written_count : ℕ
  pub blob_touched : Bool

-- The element `[bank]` of the members that exist once per bank.
abbrev pub bank_at : Store → ℕ → Bank
bank_at s bank = if bank == 0 then s.bank_0 else s.bank_1

abbrev pub set_bank_at : Store → ℕ → Bank → Store
set_bank_at s bank b = record s {
  bank_0 = if bank == 0 then b else s.bank_0;
  bank_1 = if bank == 0 then s.bank_1 else b;
}

-- `prv_staging_bank`
abbrev pub staging_bank : Store → ℕ
staging_bank s = u8 (bit_xor s.active_bank 1)

abbrev pub active : Store → Bank
active s = bank_at s s.active_bank

abbrev pub staging : Store → Bank
staging s = bank_at s (staging_bank s)

abbrev pub set_staging : Store → Bank → Store
set_staging s b = set_bank_at s (staging_bank s) b

-- `prv_mask_test`
abbrev pub mask_test : List ℕ → ℕ → Bool
mask_test mask index = bit_test (get_or mask (index / 8) 0) (index % 8)

-- `prv_mask_set`
abbrev pub mask_set : List ℕ → ℕ → Bool → List ℕ
mask_set mask index on =
    set mask (index / 8) (bit_assign (get_or mask (index / 8) 0) (index % 8) on)

-- `prv_is_blob`
abbrev pub is_blob : ℕ → Bool
is_blob index = is_blob_signal (signal_at index)

-- `prv_blob_capacity`
unfoldable pub blob_capacity : ℕ → ℕ
blob_capacity index =
    let bytes = u16 ((signal_at index).bit_length / 8) in
    if ltb bytes blob_max_bytes then bytes else blob_max_bytes

-- `(value >= raw_min) && (value <= raw_max)`
abbrev pub in_bounds : CatalogSignal → ℕ → Bool
in_bounds sig value = not (ltb value sig.raw_min || ltb sig.raw_max value)

-- The byte loops, which stop at the first byte out of bounds.
unfoldable pub bytes_in_bounds : CatalogSignal → List ℕ → Bool
bytes_in_bounds sig [] = true
bytes_in_bounds sig (b ∷ bs) = in_bounds sig b && bytes_in_bounds sig bs

-- `prv_check_index`
unfoldable pub check_index : ℕ → ℕ → Status
check_index index raw_value =
    let sig = signal_at index in
    if is_blob_signal sig
    then unsupported_signal
    else if in_bounds sig raw_value
    then ok
    else value_out_of_range

-- `prv_check_blob`
unfoldable pub check_blob : Bank → ℕ → Status
check_blob b index =
    let sig = signal_at index in
    let length = b.blob_length in
    if (b.blob_index != index) || (length == 0) || ltb (blob_capacity index) length
    then blob_incomplete
    else if bytes_in_bounds sig (take length b.blob)
    then ok
    else value_out_of_range

-- `prv_clear_blob`
abbrev pub clear_blob : Bank → Bank
clear_blob b = record b {
  blob = replicate blob_max_bytes 0;
  blob_length = 0;
  blob_index = index_invalid;
}

-- "J1939CFG"
abbrev pub config_magic : List ℕ
config_magic = b'J' ∷ b'1' ∷ b'9' ∷ b'3' ∷ b'9' ∷ b'C' ∷ b'F' ∷ b'G' ∷ []

-- What one active record adds to the configuration CRC.
unfoldable pub config_crc_record : Bank → ℕ → ℕ → ℕ
config_crc_record b i crc =
    let keyed = crc_update_u16_le crc (signal_at i).signal_key in
    if is_blob i
    then crc_update (crc_update_u16_le keyed b.blob_length) (take b.blob_length b.blob)
    else crc_update_u32_le keyed (get_or b.raw_value i 0)

-- The loop of `prv_config_crc`: `left` records from `i` on.
unfoldable pub config_crc_loop : Bank → ℕ → ℕ → ℕ → ℕ
config_crc_loop b zero i crc = crc
config_crc_loop b (suc left) i crc =
    config_crc_loop b left (i + 1)
      (if mask_test b.active_mask i then config_crc_record b i crc else crc)

-- `prv_config_crc`
unfoldable pub config_crc_of : Bank → ℕ
config_crc_of b = crc_final (
    config_crc_loop b catalog_signal_count 0
      (crc_update_u32_le (crc_update crc_init config_magic) catalog_crc32))

-- `prv_reject`
unfoldable pub reject : Store → Status → Status × Store
reject s status = elim s.txn_state [
  | txn_open ↦ (status, record s { txn_state = txn_rejected })
  | _ ↦ (status, s)
]

-- `prv_txn_ready`
unfoldable pub txn_ready : Store → Status
txn_ready s = elim s.txn_state [
  | txn_idle ↦ no_transaction
  | txn_rejected ↦ transaction_rejected
  | txn_open ↦ ok
]
