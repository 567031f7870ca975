-- ===== src/Examples/Booting.antt =====
-- APP/app_boot.c on the saved profile of one record, with a generator that keeps one value.
use teep_j1939_patent.Base.{
  ℕ, ◌≤◌, ◌≡◌, ◌+◌, ◌==◌, refl, length-replicate, List, [], ◌∷◌, Bool, true, false,
}
use teep_j1939_patent.Base.{bit_test, bit_assign, if◌then◌else◌}
use teep_j1939_patent.Crc.{crc_round, crc_rounds, crc_update_u8, crc_update, crc_update_u16_le}
use teep_j1939_patent.Crc.{crc_update_u32_le, crc_final}
use teep_j1939_patent.Catalog.{signal_at, catalog_signals, index_from_key, catalog_key_to_index}
use teep_j1939_patent.ValueStore.{init}
use teep_j1939_patent.Scheduler.{mode_sae}
use teep_j1939_patent.HalFlash.{flash_read}
use teep_j1939_patent.Storage.Defs.{image_crc, config_crc_start}
use teep_j1939_patent.Storage.Parse.{parse_key, parse_scalar, parse_record, parse_records}
use teep_j1939_patent.Storage.Parse.{
  profile_accepted, counts_rejected, parse_end, finish_walk, parse,
}
use teep_j1939_patent.Storage.Ops.{
  header_rejected, load_image, load_whole, load_checked, load_header,
}
use teep_j1939_patent.Storage.Ops.{load_slot, select_slot, open_latest}
use teep_j1939_patent.Storage.Save.{visit_latest}
use teep_j1939_patent.Control.Backend.{config_ok, persistence_empty}
use teep_j1939_patent.Generator.{Generator}
use teep_j1939_patent.Persistence.{map_result, can_mutate, load_scalar, load_commit, load_visited}
use teep_j1939_patent.Persistence.{load_opened, persistence_load, info_from, persistence_get_info}
use teep_j1939_patent.Boot.{
  Boot, boot_empty, boot_loaded, autostart_off, autostart_pending, bitrate_supported,
}
use teep_j1939_patent.Boot.{restore_loaded, restore_opened, boot_restore, boot_try}
use teep_j1939_patent.Boot.Restored.{Restored, boot_restore-Restored}
use teep_j1939_patent.Boot.Once.{
  Event, answers, starts, event_try, event_cancel, event_change, boot_starts_once,
}
use teep_j1939_patent.Examples.Saved.{saved}

-- The value that is staged, the configuration's CRC, whether the generator runs, and how often it
-- was started
record Ram : Type 0 where
  staged : ℕ
  crc : ℕ
  running : Bool
  start_count : ℕ

abbrev ram : Generator Ram
ram = record {
  values = λ s. init;
  is_running = λ s. s.running;
  config_transaction_open = λ s. false;
  has_configured_signals = λ s. true;
  get_active_signal_count = λ s. 0;
  get_active_profile_id = λ s. 255;
  get_baud = λ s. 500;
  get_config_crc = λ s. s.crc;
  active_profile_can_start = λ s. true;
  begin_profile_config = λ scalars blobs profile s. (config_ok, record s { staged = 0 });
  stage_constant_raw = λ key raw s. (config_ok, record s { staged = raw });
  stage_blob_chunk = λ key total offset chunk s. (config_ok, s);
  commit_config =
      λ s. ((config_ok, 1, 1, 1), record s { crc = if s.staged == 7 then 4130158356 else 0 });
  abort_config = λ s. record s { staged = 0 };
  clear = λ s. record { staged = 0; crc = 0; running = false; start_count = s.start_count };
  load_defaults = λ s. s;
  start = λ mode s. record s { running = true; start_count = s.start_count + 1 };
}

abbrev at_reset : Boot Ram
at_reset = record {
  result = boot_empty;
  load_status = persistence_empty;
  autostart = autostart_off;
  bitrate_kbps = 0;
  config_crc = 0;
  boot_sequence = 0;
  autostart_mode = mode_sae;
  reset_cause = 0;
  watchdog_streak = 0;
  saving = record {
    last_status = persistence_empty;
    storage = saved [];
    app = record { staged = 0; crc = 0; running = false; start_count = 0 };
  };
}

restores : (boot_restore ram false false at_reset).result ≡ boot_loaded
unfolding flash_read header_rejected load_image load_whole load_checked load_header load_slot
    select_slot open_latest parse_key parse_scalar parse_record parse_records profile_accepted
    counts_rejected parse_end finish_walk parse image_crc config_crc_start crc_round crc_rounds
    crc_update_u8 crc_update crc_update_u16_le crc_update_u32_le crc_final signal_at catalog_signals
    index_from_key catalog_key_to_index bit_test bit_assign visit_latest map_result can_mutate
    load_scalar load_commit load_visited load_opened persistence_load info_from persistence_get_info
    bitrate_supported restore_loaded restore_opened boot_restore
restores = refl

boot_restore-Restored_example :
    ((boot_restore ram false false at_reset).saving.storage.flash ≡ at_reset.saving.storage.flash)
    × Restored ram false false at_reset (boot_restore ram false false at_reset)
boot_restore-Restored_example =
    boot_restore-Restored ram false false at_reset (length-replicate {A = ℕ} 1536 0)

abbrev waiting : Boot Ram
waiting = record at_reset { autostart = autostart_pending }

abbrev start_calls : Ram → ℕ
start_calls s = s.start_count

abbrev tries : List (Event Ram)
tries = event_try ∷ event_change (λ s. record s { running = false }) ∷ event_try ∷ []

started_once : starts ram start_calls tries waiting ≡ 1
unfolding starts boot_try
started_once = refl

boot_starts_once_example :
    (starts ram start_calls tries waiting ≤ 1)
    × (starts ram start_calls tries waiting ≡ answers ram tries waiting)
    × (starts ram start_calls (event_cancel ∷ tries) waiting ≡ 0)
    × (starts ram start_calls tries (boot_restore ram true true waiting) ≡ 0)
boot_starts_once_example =
    boot_starts_once ram start_calls (λ mode s. refl) tries true waiting
      (length-replicate {A = ℕ} 1536 0)
