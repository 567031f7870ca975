-- ===== src/Boot.antt =====
-- APP/app_boot.c: the restore of the saved profile at boot, and its start when CAN is up.
pub mod Restored
pub mod Once
use teep_j1939_patent.Base.{ℕ, ◌%◌, Bool, true, false, not, ◌||◌, ◌==◌, if◌then◌else◌, ◌/◌}
use teep_j1939_patent.Scheduler.{SchedMode, mode_sae}
use teep_j1939_patent.Storage.Defs.{Info}
use teep_j1939_patent.Control.Backend.{BootInfo, PersistenceStatus, PersistenceInfo}
use teep_j1939_patent.Control.Backend.{persistence_ok, persistence_empty, persistence_code}
use teep_j1939_patent.Control.Backend.{persistence_unsupported_config}
use teep_j1939_patent.Generator.{Generator}
use teep_j1939_patent.Persistence.{Saving, persistence_get_info, persistence_load}

-- `App_Boot_Result_t`
pub data BootResult : Type 0 where
  boot_empty boot_loaded boot_load_failed boot_defaults : BootResult

-- `App_Autostart_State_t`
pub data AutostartState : Type 0 where
  autostart_off autostart_pending autostart_started : AutostartState
  autostart_cancelled autostart_suppressed autostart_not_startable : AutostartState

-- The module's variables, `s_info` by its members, and what it works on
pub record Boot (S : Type 0) : Type 0 where
  pub result : BootResult
  pub load_status : PersistenceStatus
  pub autostart : AutostartState
  pub bitrate_kbps : ℕ
  pub config_crc : ℕ
  pub boot_sequence : ℕ
  pub autostart_mode : SchedMode
  pub reset_cause : ℕ
  pub watchdog_streak : ℕ
  pub saving : Saving S

-- `prv_bitrate_supported`
unfoldable pub bitrate_supported : ℕ → Bool
bitrate_supported bitrate_bps = bitrate_bps == 250000 || bitrate_bps == 500000

-- The state of an autostart that the caller suppresses or not
abbrev pub wanted : Bool → AutostartState
wanted suppress = if suppress then autostart_suppressed else autostart_pending

-- The numbers of `App_Boot_Result_t`
abbrev pub result_code : BootResult → ℕ
result_code boot_empty = 0
result_code boot_loaded = 1
result_code boot_load_failed = 2
result_code boot_defaults = 3

-- The numbers of `App_Autostart_State_t`
abbrev pub autostart_code : AutostartState → ℕ
autostart_code autostart_off = 0
autostart_code autostart_pending = 1
autostart_code autostart_started = 2
autostart_code autostart_cancelled = 3
autostart_code autostart_suppressed = 4
autostart_code autostart_not_startable = 5

abbrev pub is_pending : AutostartState → Bool
is_pending autostart_pending = true
is_pending _ = false

abbrev pub with_app : {S : Type 0} → S → Boot S → Boot S
with_app s boot = record boot { saving = record boot.saving { app = s } }

-- `App_Boot_Set_Reset_Info`
abbrev pub set_reset_info : {S : Type 0} → ℕ → ℕ → Boot S → Boot S
set_reset_info cause streak boot = record boot { reset_cause = cause; watchdog_streak = streak }

-- `App_Boot_Get_Info`, as the boot page reads it
abbrev pub boot_get_info : {S : Type 0} → Boot S → BootInfo
boot_get_info boot = record {
  result = result_code boot.result;
  load_status = persistence_code boot.load_status;
  autostart = autostart_code boot.autostart;
  reset_cause = boot.reset_cause;
  watchdog_streak = boot.watchdog_streak;
}

-- `App_Boot_Cancel_Autostart`
unfoldable pub boot_cancel : {S : Type 0} → Boot S → Boot S
boot_cancel boot =
    if is_pending boot.autostart then record boot { autostart = autostart_cancelled } else boot

module _ {S : Type 0} (g : Generator S) where
  -- `prv_fail`
  unfoldable pub boot_fail : PersistenceStatus → Boot S → Boot S
  boot_fail st boot = with_app (g.clear boot.saving.app) (record boot {
    result = boot_load_failed;
    load_status = st;
    autostart = autostart_off;
    config_crc = 0;
    boot_sequence = 0;
  })

  -- The reset of `s_info` and `s_autostart_mode` in `App_Boot_Restore`
  abbrev pub boot_reset : Boot S → Boot S
  boot_reset boot = record boot {
    result = boot_empty;
    load_status = persistence_empty;
    autostart = autostart_off;
    bitrate_kbps = g.get_baud boot.saving.app;
    config_crc = 0;
    boot_sequence = 0;
    autostart_mode = mode_sae;
  }

  -- `App_Boot_Restore` of an empty storage
  unfoldable pub restore_empty : Bool → Bool → Boot S → Boot S
  restore_empty suppress defaults boot =
      if defaults
      then with_app (g.load_defaults boot.saving.app) (record boot {
        result = boot_defaults;
        autostart = wanted suppress;
        autostart_mode = mode_sae;
      })
      else boot

  -- `App_Boot_Restore` after the load of this profile
  unfoldable pub restore_loaded : Bool → PersistenceInfo → PersistenceStatus → Boot S → Boot S
  restore_loaded suppress info persistence_ok boot = record boot {
    result = boot_loaded;
    load_status = persistence_ok;
    bitrate_kbps = info.stored.bitrate_bps / 1000;
    config_crc = info.stored.config_crc;
    boot_sequence = info.stored.sequence;
    autostart = if info.autostart then wanted suppress else boot.autostart;
  }
  restore_loaded suppress info st boot = boot_fail st boot

  -- `App_Boot_Restore` of a storage with this status
  unfoldable pub restore_opened :
      Bool → Bool → PersistenceInfo → PersistenceStatus → Boot S → Boot S
  restore_opened suppress defaults info persistence_empty boot =
      restore_empty suppress defaults boot
  restore_opened suppress defaults info persistence_ok boot =
      let load = persistence_load g boot.saving in
      if not (bitrate_supported info.stored.bitrate_bps)
      then boot_fail persistence_unsupported_config boot
      else restore_loaded suppress info load.0 (record boot { saving = load.1 })
  restore_opened suppress defaults info st boot = boot_fail st boot

  -- `App_Boot_Restore`
  unfoldable pub boot_restore : Bool → Bool → Boot S → Boot S
  boot_restore suppress defaults boot =
      let opened = persistence_get_info g boot.saving in
      restore_opened suppress defaults opened.0.1 opened.0.0
        (record (boot_reset boot) { saving = opened.1 })

  -- `App_Boot_Try_Autostart`
  unfoldable pub boot_try : Boot S → Bool × Boot S
  boot_try boot =
      if not (is_pending boot.autostart)
      then (false, boot)
      else if not (g.active_profile_can_start boot.saving.app)
      then (false, record boot { autostart = autostart_not_startable })
      else (
        true,
        with_app (g.start boot.autostart_mode boot.saving.app)
            (record boot { autostart = autostart_started }),
      )
