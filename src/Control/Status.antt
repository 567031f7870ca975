-- ===== src/Control/Status.antt =====
-- APP/app_control_can.c: `prv_handle_get_status`, one page of the program's state per request.
use teep_j1939_patent.Base.{ℕ, ◌/◌, List, get_or, Bool, not, ◌||◌, ltb, ◌==◌, ◌!=◌}
use teep_j1939_patent.Base.{none, some, if◌then◌else◌, u8, bit_or, ◌<<<◌}
use teep_j1939_patent.ValueStore.{blob_max_bytes}
use teep_j1939_patent.Profiles.{CustomerProfile, find_profile, profile_id_custom}
use teep_j1939_patent.Scheduler.{sched_max_pgns, profile_signal_capacity}
use teep_j1939_patent.Control.Defs.{bad_argument, status_ok, build_response, bytes_are_zero_from}
use teep_j1939_patent.Control.Backend.{Backend, PersistenceStatus, persistence_ok, PersistenceInfo}
use teep_j1939_patent.Control.Backend.{BootInfo, BusError, persistence_code}
use teep_j1939_patent.Control.Commands.{opcode_get_status}

-- `APP_CONTROL_STATUS_PAGE_...`; page 0 is the protocol's.
abbrev pub page_runtime : ℕ
page_runtime = 1

abbrev pub page_config : ℕ
page_config = 2

abbrev pub page_limits : ℕ
page_limits = 3

abbrev pub page_profile : ℕ
page_profile = 4

abbrev pub page_storage : ℕ
page_storage = 5

abbrev pub page_storage_sequence : ℕ
page_storage_sequence = 6

abbrev pub page_storage_metadata : ℕ
page_storage_metadata = 7

abbrev pub page_boot : ℕ
page_boot = 8

abbrev pub page_link : ℕ
page_link = 9

-- `APP_CONTROL_STATUS_PAGE_LAST`
abbrev pub page_last : ℕ
page_last = page_link

-- `APP_CONTROL_CAPABILITIES`: all eight
abbrev pub capabilities : ℕ
capabilities = 0xff

-- `APP_CONTROL_FEATURES`: blobs, percentage, CRC, transport, persistence and profiles
abbrev pub features : ℕ
features = 0xb7

-- Four bytes, the lowest first, as the pages pack them
abbrev pub page_bytes : ℕ → ℕ → ℕ → ℕ → ℕ
page_bytes a b c d = bit_or (bit_or (bit_or a (b <<< 8)) (c <<< 16)) (d <<< 24)

-- `APP_CONTROL_PROTOCOL_INFO_VALUE`: major, minor, schema and capabilities
abbrev pub protocol_info_value : ℕ
protocol_info_value = page_bytes 2 5 1 capabilities

-- `if (on) { detail |= 1u << k; }`
abbrev pub with_bit : ℕ → Bool → ℕ → ℕ
with_bit k on detail = if on then bit_or detail (1 <<< k) else detail

-- The page of a profile that the table has
unfoldable pub profile_page : CustomerProfile → ℕ × ℕ
profile_page p = (
  with_bit 2 (p.unresolved_mode_count != 0) p.flags,
  page_bytes p.profile_id p.signal_count p.pgn_count p.baseline_load_500k_decipct,
)

-- The three pages of the storage
unfoldable pub storage_page : ℕ → PersistenceStatus → PersistenceInfo → ℕ × ℕ
storage_page page status info =
    let flags =
      with_bit 3 (info.stored.slot != 0)
        (with_bit 2 info.dirty (with_bit 1 info.autostart (with_bit 0 info.valid 0))) in
    let detail : ℕ = elim status [ persistence_ok ↦ flags | _ ↦ 0 ] in
    if page == page_storage
    then (detail, if info.valid then info.stored.config_crc else 0)
    else if page == page_storage_sequence
    then (
      if info.valid then info.stored.profile_id else profile_id_custom,
      if info.valid then info.stored.sequence else 0,
    )
    else (
      u8 (persistence_code info.last_status),
      if info.valid
          then bit_or info.stored.signal_count ((info.stored.bitrate_bps / 1000) <<< 16)
          else 0,
    )

unfoldable pub boot_page : BootInfo → ℕ × ℕ
boot_page boot = (
  boot.reset_cause,
  page_bytes (u8 boot.result) (u8 boot.load_status) (u8 boot.autostart) boot.watchdog_streak,
)

unfoldable pub link_page : BusError → ℕ → ℕ × ℕ
link_page bus recoveries = (
  with_bit 2 bus.bus_off (with_bit 1 bus.error_passive (with_bit 0 bus.error_warning 0)),
  bit_or (bit_or recoveries (bus.tec <<< 16)) (bus.rec <<< 24),
)

module _ {S : Type 0} (b : Backend S) where
  unfoldable pub runtime_flags : S → ℕ
  runtime_flags s = with_bit 4 (b.get_config_generation s != 0) (
      with_bit 3 (b.config_transaction_rejected s) (
        with_bit 2 (b.config_transaction_open s)
          (with_bit 1 (b.is_engine_speed_configured s) (with_bit 0 (b.is_running s) 0))))

  -- The page of the active profile
  unfoldable pub active_profile_page : S → ℕ × ℕ
  active_profile_page s = elim (find_profile (b.get_active_profile_id s)) [
    | none ↦ (
      0,
      page_bytes profile_id_custom (b.get_active_signal_count s) (b.get_active_pgn_count s) 0xff,
    )
    | some p ↦ profile_page p
  ]

  -- The `switch` on the page: the detail and the value, and the state after the calls
  unfoldable pub status_page : ℕ → S → (ℕ × ℕ) × S
  status_page page s =
      let ((stored, info), t) = b.persistence_get_info s in
      let (bus, u) = b.get_bus_error s in
      if page == page_runtime
      then (
        (
          runtime_flags s,
          bit_or (bit_or (b.get_config_generation s) (b.get_active_signal_count s <<< 16))
              (b.get_active_pgn_count s <<< 24),
        ),
        s,
      )
      else if page == page_config
      then ((runtime_flags s, b.get_config_crc s), s)
      else if page == page_limits
      then ((features, page_bytes profile_signal_capacity sched_max_pgns 0 blob_max_bytes), s)
      else if page == page_profile
      then (active_profile_page s, s)
      else if (page == page_storage)
          || (page == page_storage_sequence)
          || (page == page_storage_metadata)
      then (storage_page page stored info, t)
      else if page == page_boot
      then (boot_page (b.get_boot_info s), s)
      else if page == page_link
      then (link_page bus (b.get_bus_recovery_count s), u)
      else ((runtime_flags s, protocol_info_value), s)

  -- `prv_handle_get_status`
  unfoldable pub handle_get_status : ℕ → List ℕ → S → List ℕ × S
  handle_get_status sequence request s =
      let page = get_or request 2 0 in
      let ((detail, value), t) = status_page page s in
      if not (bytes_are_zero_from request 3) || ltb page_last page
      then (build_response opcode_get_status sequence bad_argument 0 0, s)
      else (build_response opcode_get_status sequence status_ok detail value, t)
