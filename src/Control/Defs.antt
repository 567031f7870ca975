-- ===== src/Control/Defs.antt =====
-- APP/app_control_can.{h,c}: the protocol's constants, the state, and what the handlers call.
use teep_j1939_patent.Base.{
  ◌≤◌, arith, ℕ, ◌+◌, List, [], ◌∷◌, get_or, take, drop, Bool, true, false,
}
use teep_j1939_patent.Base.{◌&&◌, ◌==◌, ◌!=◌, if◌then◌else◌, u8, bit_or, ◌<<<◌, ◌>>>◌}
use teep_j1939_patent.HalCan.{Can}

abbrev pub control_priority : ℕ
control_priority = 6

-- `APP_CONTROL_TESTER_ADDRESS`, `APP_CONTROL_STM32_ADDRESS`
abbrev pub tester_address : ℕ
tester_address = 0xf9

abbrev pub stm32_address : ℕ
stm32_address = 0x80

-- `APP_CONTROL_FRAME_LENGTH`
abbrev pub frame_length : ℕ
frame_length = 8

abbrev pub response_mask : ℕ
response_mask = 0x80

-- `APP_CONTROL_DEDUP_CACHE_CAPACITY`, `APP_CONTROL_DEDUP_WINDOW_MS`
abbrev pub dedup_cache_capacity : ℕ
dedup_cache_capacity = 16

abbrev pub dedup_window_ms : ℕ
dedup_window_ms = 2000

-- `APP_CONTROL_TX_QUEUE_CAPACITY`, `APP_CONTROL_TX_RETRY_DELAY_MS`
abbrev pub control_queue_capacity : ℕ
control_queue_capacity = 4

abbrev pub tx_retry_delay_ms : ℕ
tx_retry_delay_ms = 1

-- `App_Control_Status_t`
pub data ControlStatus : Type 0 where
  status_ok unsupported_opcode bad_dlc bad_argument schema_mismatch : ControlStatus
  unknown_signal_key value_out_of_range invalid_state busy duplicate_conflict : ControlStatus
  transaction_rejected count_mismatch resource_full catalog_mismatch internal_error : ControlStatus
  blob_incomplete unknown_profile profile_key_not_allowed profile_mismatch : ControlStatus
  storage_empty storage_invalid storage_error storage_unsupported : ControlStatus

-- The numbers of `App_Control_Status_t`
unfoldable pub status_code : ControlStatus → ℕ
status_code status_ok = 0
status_code unsupported_opcode = 1
status_code bad_dlc = 2
status_code bad_argument = 3
status_code schema_mismatch = 4
status_code unknown_signal_key = 5
status_code value_out_of_range = 6
status_code invalid_state = 7
status_code busy = 8
status_code duplicate_conflict = 9
status_code transaction_rejected = 10
status_code count_mismatch = 11
status_code resource_full = 12
status_code catalog_mismatch = 13
status_code internal_error = 14
status_code blob_incomplete = 15
status_code unknown_profile = 16
status_code profile_key_not_allowed = 17
status_code profile_mismatch = 18
status_code storage_empty = 19
status_code storage_invalid = 20
status_code storage_error = 21
status_code storage_unsupported = 22

pub status_code-small : (st : ControlStatus) → status_code st ≤ 22
unfolding status_code
status_code-small st = ground arith

abbrev pub is_status_ok : ControlStatus → Bool
is_status_ok status_ok = true
is_status_ok _ = false

-- `App_Control_Can_Stats_t`
pub record ControlStats : Type 0 where
  pub received : ℕ
  pub ignored_endpoint : ℕ
  pub ignored_response : ℕ
  pub malformed_without_sequence : ℕ
  pub responses_queued : ℕ
  pub responses_busy : ℕ
  pub responses_failed : ℕ
  pub responses_deferred : ℕ
  pub responses_dropped : ℕ
  pub duplicate_replays : ℕ
  pub duplicate_conflicts : ℕ

-- `App_Control_Cache_Entry_t`
pub record CacheEntry : Type 0 where
  pub valid : Bool
  pub source_address : ℕ
  pub request : List ℕ
  pub response : List ℕ
  pub timestamp_ms : ℕ

-- `App_Control_Tx_Entry_t`
pub record DeferredEntry : Type 0 where
  pub response : List ℕ
  pub queued_ms : ℕ

-- The module's variables
pub record Control : Type 0 where
  pub stats : ControlStats
  pub cache : List CacheEntry
  pub cache_next : ℕ
  pub tx_queue : List DeferredEntry
  pub tx_queue_head : ℕ
  pub tx_queue_count : ℕ
  pub tx_retry_not_before_ms : ℕ

-- The module, the CAN controller that it answers through, and the rest of the program
pub record Node (S : Type 0) : Type 0 where
  pub control : Control
  pub can : Can
  pub app : S

abbrev zero_bytes : List ℕ
zero_bytes = 0 ∷ 0 ∷ 0 ∷ 0 ∷ 0 ∷ 0 ∷ 0 ∷ 0 ∷ []

-- An entry after `memset`
abbrev pub no_cache_entry : CacheEntry
no_cache_entry = record {
  valid = false;
  source_address = 0;
  request = zero_bytes;
  response = zero_bytes;
  timestamp_ms = 0;
}

abbrev pub no_deferred_entry : DeferredEntry
no_deferred_entry = record { response = zero_bytes; queued_ms = 0 }

-- `prv_read_u16_le(&data[at])`, `prv_read_u32_le(&data[at])`
abbrev pub read_u16_le : List ℕ → ℕ → ℕ
read_u16_le bytes at = bit_or (get_or bytes (at + 1) 0 <<< 8) (get_or bytes at 0)

abbrev pub read_u32_le : List ℕ → ℕ → ℕ
read_u32_le bytes at =
    bit_or (bit_or (get_or bytes (at + 3) 0 <<< 24) (get_or bytes (at + 2) 0 <<< 16))
      (read_u16_le bytes at)

-- The four bytes of `prv_write_u32_le`
abbrev pub write_u32_le : ℕ → List ℕ
write_u32_le value = u8 value ∷ u8 (value >>> 8) ∷ u8 (value >>> 16) ∷ u8 (value >>> 24) ∷ []

-- `prv_build_response`
unfoldable pub build_response : ℕ → ℕ → ControlStatus → ℕ → ℕ → List ℕ
build_response request_opcode sequence status detail value =
    u8 (bit_or request_opcode response_mask)
    ∷ sequence
    ∷ status_code status
    ∷ detail
    ∷ write_u32_le value

-- `memcmp(a, b, APP_CONTROL_FRAME_LENGTH) == 0`
unfoldable pub bytes_equal : List ℕ → List ℕ → Bool
bytes_equal [] [] = true
bytes_equal [] (b ∷ bs) = false
bytes_equal (a ∷ as_) [] = false
bytes_equal (a ∷ as_) (b ∷ bs) = (a == b) && bytes_equal as_ bs

-- Every byte is zero.
abbrev pub all_zero : List ℕ → Bool
all_zero [] = true
all_zero (b ∷ bs) = let rest = all_zero bs in if b != 0 then false else rest

-- `prv_bytes_are_zero_from`
abbrev pub bytes_are_zero_from : List ℕ → ℕ → Bool
bytes_are_zero_from bytes first = all_zero (drop first (take frame_length bytes))

-- `prv_reserved_bytes_are_zero`
abbrev pub reserved_bytes_are_zero : List ℕ → Bool
reserved_bytes_are_zero bytes = all_zero (drop 2 (take frame_length bytes))
