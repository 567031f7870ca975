-- ===== src/Generator.antt =====
-- APP/app_generator.h: what the persistence and the boot module call of the generator, an interface
-- on its state.
use teep_j1939_patent.Base.{ℕ, List, Bool}
use teep_j1939_patent.ValueStore.{Store}
use teep_j1939_patent.Scheduler.{SchedMode}
use teep_j1939_patent.Control.Backend.{ConfigTxnStatus}

-- The calls; a result comes with the state after the call. `values` is the value store, which the
-- generator fills.
pub record Generator (S : Type 0) : Type 0 where
  pub values : S → Store
  pub is_running : S → Bool
  pub config_transaction_open : S → Bool
  pub has_configured_signals : S → Bool
  pub get_active_signal_count : S → ℕ
  pub get_active_profile_id : S → ℕ
  pub get_baud : S → ℕ
  pub get_config_crc : S → ℕ
  pub active_profile_can_start : S → Bool
  pub begin_profile_config : ℕ → ℕ → ℕ → S → ConfigTxnStatus × S
  pub stage_constant_raw : ℕ → ℕ → S → ConfigTxnStatus × S
  pub stage_blob_chunk : ℕ → ℕ → ℕ → List ℕ → S → ConfigTxnStatus × S
  pub commit_config : S → (ConfigTxnStatus × ℕ × ℕ × ℕ) × S
  pub abort_config : S → S
  pub clear : S → S
  pub load_defaults : S → S
  pub start : SchedMode → S → S
