-- ===== src/Control/Backend.antt =====
-- What the control protocol calls of APP/app_generator.h, APP/app_persistence.h, APP/app_boot.h and
-- HAL/hal_time.h: an interface on the state of the rest of the program.
use teep_j1939_patent.Base.{ℕ, List, Bool}
use teep_j1939_patent.Storage.Defs.{Info}
use teep_j1939_patent.Control.Defs.{ControlStatus, status_ok, bad_argument}
use teep_j1939_patent.Control.Defs.{unknown_signal_key, value_out_of_range, resource_full}
use teep_j1939_patent.Control.Defs.{count_mismatch, transaction_rejected, internal_error, busy}
use teep_j1939_patent.Control.Defs.{blob_incomplete, unknown_profile, profile_key_not_allowed}
use teep_j1939_patent.Control.Defs.{profile_mismatch, invalid_state, storage_empty}
use teep_j1939_patent.Control.Defs.{storage_unsupported, catalog_mismatch, storage_invalid}
use teep_j1939_patent.Control.Defs.{storage_error}

-- `App_Set_Const_Status_t`
pub data SetConstStatus : Type 0 where
  set_const_ok set_const_unknown_key set_const_value_out_of_range : SetConstStatus
  set_const_unsupported_signal set_const_resource_full set_const_transaction_open : SetConstStatus

-- `App_Config_Transaction_Status_t`
pub data ConfigTxnStatus : Type 0 where
  config_ok config_invalid_state config_already_open config_not_open : ConfigTxnStatus
  config_rejected config_unknown_key config_value_out_of_range : ConfigTxnStatus
  config_unsupported_signal config_resource_full config_count_mismatch : ConfigTxnStatus
  config_internal_error config_blob_incomplete config_bad_argument : ConfigTxnStatus
  config_unknown_profile config_profile_key_not_allowed config_profile_mismatch : ConfigTxnStatus

-- `App_Persistence_Status_t`
pub data PersistenceStatus : Type 0 where
  persistence_ok persistence_empty persistence_invalid_state : PersistenceStatus
  persistence_unsupported_config persistence_catalog_mismatch : PersistenceStatus
  persistence_invalid_image persistence_flash_error persistence_verify_error : PersistenceStatus
  persistence_apply_error : PersistenceStatus

-- The numbers of `App_Persistence_Status_t`
unfoldable pub persistence_code : PersistenceStatus → ℕ
persistence_code persistence_ok = 0
persistence_code persistence_empty = 1
persistence_code persistence_invalid_state = 2
persistence_code persistence_unsupported_config = 3
persistence_code persistence_catalog_mismatch = 4
persistence_code persistence_invalid_image = 5
persistence_code persistence_flash_error = 6
persistence_code persistence_verify_error = 7
persistence_code persistence_apply_error = 8

-- `App_Persistence_Info_t`
pub record PersistenceInfo : Type 0 where
  pub valid : Bool
  pub autostart : Bool
  pub dirty : Bool
  pub stored : Info
  pub last_status : PersistenceStatus

-- What the boot page reads of `App_Boot_Info_t`, its enumerations as their numbers
pub record BootInfo : Type 0 where
  pub result : ℕ
  pub load_status : ℕ
  pub autostart : ℕ
  pub reset_cause : ℕ
  pub watchdog_streak : ℕ

-- What the link page reads of `J1939_Link_Bus_Error_t`
pub record BusError : Type 0 where
  pub tec : ℕ
  pub rec : ℕ
  pub error_warning : Bool
  pub error_passive : Bool
  pub bus_off : Bool

-- The calls; a result comes with the state after the call. An out parameter is part of the result,
-- with what it holds after the call.
pub record Backend (S : Type 0) : Type 0 where
  pub time_ms : S → ℕ × S
  pub set_constant_raw : ℕ → ℕ → S → (SetConstStatus × ℕ) × S
  pub active_profile_can_start : S → Bool
  pub cancel_autostart : S → S
  pub start : S → S
  pub stop : S → S
  pub clear : S → S
  pub is_running : S → Bool
  pub is_engine_speed_configured : S → Bool
  pub config_transaction_open : S → Bool
  pub config_transaction_rejected : S → Bool
  pub get_config_generation : S → ℕ
  pub get_active_signal_count : S → ℕ
  pub get_active_pgn_count : S → ℕ
  pub get_config_crc : S → ℕ
  pub get_active_profile_id : S → ℕ
  pub get_bus_recovery_count : S → ℕ
  pub get_bus_error : S → BusError × S
  pub get_boot_info : S → BootInfo
  pub begin_profile_config : ℕ → ℕ → ℕ → S → ConfigTxnStatus × S
  pub stage_constant_raw : ℕ → ℕ → S → (ConfigTxnStatus × ℕ) × S
  pub stage_blob_chunk : ℕ → ℕ → ℕ → List ℕ → S → (ConfigTxnStatus × ℕ) × S
  pub stage_string_chunk : ℕ → ℕ → ℕ → List ℕ → S → (ConfigTxnStatus × ℕ) × S
  pub set_global_percent : ℕ → S → (ConfigTxnStatus × ℕ × ℕ × ℕ) × S
  pub commit_config : S → (ConfigTxnStatus × ℕ × ℕ × ℕ) × S
  pub abort_config : S → S
  pub persistence_save : S → (PersistenceStatus × Info) × S
  pub persistence_load : S → (PersistenceStatus × ℕ × ℕ × ℕ) × S
  pub persistence_erase : S → PersistenceStatus × S
  pub persistence_set_autostart : Bool → S → (PersistenceStatus × Info) × S
  pub persistence_get_info : S → (PersistenceStatus × PersistenceInfo) × S

-- `prv_txn_status`
unfoldable pub config_txn_status : ConfigTxnStatus → ControlStatus
config_txn_status config_ok = status_ok
config_txn_status config_unknown_key = unknown_signal_key
config_txn_status config_value_out_of_range = value_out_of_range
config_txn_status config_unsupported_signal = bad_argument
config_txn_status config_resource_full = resource_full
config_txn_status config_count_mismatch = count_mismatch
config_txn_status config_rejected = transaction_rejected
config_txn_status config_internal_error = internal_error
config_txn_status config_already_open = busy
config_txn_status config_blob_incomplete = blob_incomplete
config_txn_status config_bad_argument = bad_argument
config_txn_status config_unknown_profile = unknown_profile
config_txn_status config_profile_key_not_allowed = profile_key_not_allowed
config_txn_status config_profile_mismatch = profile_mismatch
config_txn_status config_invalid_state = invalid_state
config_txn_status config_not_open = invalid_state

-- `prv_persistence_status`
unfoldable pub persistence_control_status : PersistenceStatus → ControlStatus
persistence_control_status persistence_ok = status_ok
persistence_control_status persistence_empty = storage_empty
persistence_control_status persistence_invalid_state = invalid_state
persistence_control_status persistence_unsupported_config = storage_unsupported
persistence_control_status persistence_catalog_mismatch = catalog_mismatch
persistence_control_status persistence_invalid_image = storage_invalid
persistence_control_status persistence_flash_error = storage_error
persistence_control_status persistence_verify_error = storage_error
persistence_control_status persistence_apply_error = internal_error
