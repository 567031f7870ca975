-- ===== src/Control/Commands.antt =====
-- APP/app_control_can.c: the handlers of the opcodes, but for the status pages.
use teep_j1939_patent.Base.{ℕ, ◌-◌, List, get_or, take, drop, not, ◌||◌, ltb, ◌==◌, ◌!=◌}
use teep_j1939_patent.Base.{if◌then◌else◌, u8, bit_and, bit_or, ◌<<<◌, ◌>>>◌}
use teep_j1939_patent.Catalog.{catalog_crc32}
use teep_j1939_patent.Profiles.{profile_id_custom}
use teep_j1939_patent.Control.Defs.{ControlStatus, status_ok, bad_argument, is_status_ok}
use teep_j1939_patent.Control.Defs.{unknown_signal_key, value_out_of_range, invalid_state, busy}
use teep_j1939_patent.Control.Defs.{catalog_mismatch, read_u16_le, read_u32_le, build_response}
use teep_j1939_patent.Control.Defs.{reserved_bytes_are_zero, bytes_are_zero_from}
use teep_j1939_patent.Control.Backend.{Backend, config_txn_status, persistence_control_status}
use teep_j1939_patent.Control.Backend.{SetConstStatus, set_const_ok, set_const_unknown_key}
use teep_j1939_patent.Control.Backend.{set_const_value_out_of_range, set_const_unsupported_signal}
use teep_j1939_patent.Control.Backend.{set_const_transaction_open}

-- `APP_CONTROL_OPCODE_...`
abbrev pub opcode_tc1001 : ℕ
opcode_tc1001 = 0x01

abbrev pub opcode_stop : ℕ
opcode_stop = 0x02

abbrev pub opcode_start : ℕ
opcode_start = 0x03

abbrev pub opcode_get_status : ℕ
opcode_get_status = 0x04

abbrev pub opcode_clear_config : ℕ
opcode_clear_config = 0x05

abbrev pub opcode_set_const : ℕ
opcode_set_const = 0x10

abbrev pub opcode_begin_config : ℕ
opcode_begin_config = 0x11

abbrev pub opcode_set_signal_raw : ℕ
opcode_set_signal_raw = 0x12

abbrev pub opcode_commit_config : ℕ
opcode_commit_config = 0x13

abbrev pub opcode_abort_config : ℕ
opcode_abort_config = 0x14

abbrev pub opcode_write_blob : ℕ
opcode_write_blob = 0x15

abbrev pub opcode_set_global_percent : ℕ
opcode_set_global_percent = 0x16

abbrev pub opcode_set_string : ℕ
opcode_set_string = 0x17

abbrev pub opcode_save_config : ℕ
opcode_save_config = 0x18

abbrev pub opcode_load_saved_config : ℕ
opcode_load_saved_config = 0x19

abbrev pub opcode_erase_saved_config : ℕ
opcode_erase_saved_config = 0x1a

abbrev pub opcode_set_autostart : ℕ
opcode_set_autostart = 0x1b

-- The `switch` of `prv_handle_set_const`
unfoldable pub set_const_status : SetConstStatus → ControlStatus
set_const_status set_const_ok = status_ok
set_const_status set_const_unknown_key = unknown_signal_key
set_const_status set_const_value_out_of_range = value_out_of_range
set_const_status set_const_unsupported_signal = bad_argument
set_const_status set_const_transaction_open = invalid_state
set_const_status _ = busy

module _ {S : Type 0} (b : Backend S) where
  -- `prv_handle_set_const`
  unfoldable pub handle_set_const : ℕ → List ℕ → S → List ℕ × S
  handle_set_const sequence request s =
      let done = b.set_constant_raw (read_u16_le request 2) (read_u32_le request 4) s in
      let status = set_const_status done.0.0 in
      let value = if is_status_ok status then done.0.1 else 0 in
      (build_response opcode_set_const sequence status 0 value, done.1)

  -- `prv_handle_start`
  unfoldable pub handle_start : ℕ → List ℕ → S → List ℕ × S
  handle_start sequence request s =
      if not (reserved_bytes_are_zero request)
      then (build_response opcode_start sequence bad_argument 0 0, s)
      else if not (b.active_profile_can_start s)
      then (build_response opcode_start sequence invalid_state 0 0, s)
      else (build_response opcode_start sequence status_ok 0 0, b.start (b.cancel_autostart s))

  -- `prv_handle_stop`
  unfoldable pub handle_stop : ℕ → List ℕ → S → List ℕ × S
  handle_stop sequence request s =
      if not (reserved_bytes_are_zero request)
      then (build_response opcode_stop sequence bad_argument 0 0, s)
      else (build_response opcode_stop sequence status_ok 0 0, b.stop (b.cancel_autostart s))

  -- `prv_handle_clear_config`
  unfoldable pub handle_clear_config : ℕ → List ℕ → S → List ℕ × S
  handle_clear_config sequence request s =
      if not (reserved_bytes_are_zero request)
      then (build_response opcode_clear_config sequence bad_argument 0 0, s)
      else if b.is_running s || b.config_transaction_open s
      then (build_response opcode_clear_config sequence invalid_state 0 0, s)
      else (build_response opcode_clear_config sequence status_ok 0 0, b.clear s)

  -- `prv_handle_begin_config`
  unfoldable pub handle_begin_config : ℕ → List ℕ → S → List ℕ × S
  handle_begin_config sequence request s =
      let expected_count = get_or request 6 0 in
      let profile_blob = get_or request 7 0 in
      let selector = profile_blob >>> 1 in
      let profile_id = if selector == 0 then profile_id_custom else u8 (selector - 1) in
      let done = b.begin_profile_config expected_count (bit_and profile_blob 0x01) profile_id s in
      if read_u32_le request 2 != catalog_crc32
      then (build_response opcode_begin_config sequence catalog_mismatch 0 catalog_crc32, s)
      else (
        build_response opcode_begin_config sequence (config_txn_status done.0) (u8 expected_count)
            catalog_crc32,
        done.1,
      )

  -- `prv_handle_set_signal_raw`
  unfoldable pub handle_set_signal_raw : ℕ → List ℕ → S → List ℕ × S
  handle_set_signal_raw sequence request s =
      let raw_value = read_u32_le request 4 in
      let done = b.stage_constant_raw (read_u16_le request 2) raw_value s in
      let status = config_txn_status done.0.0 in
      (
        build_response opcode_set_signal_raw sequence status (u8 done.0.1)
            (if is_status_ok status then raw_value else 0),
        done.1,
      )

  -- `prv_handle_write_blob`
  unfoldable pub handle_write_blob : ℕ → List ℕ → S → List ℕ × S
  handle_write_blob sequence request s =
      let total_length = get_or request 3 0 in
      let done =
        b.stage_blob_chunk (get_or request 2 0) total_length (get_or request 4 0)
          (take 3 (drop 5 request)) s in
      (
        build_response opcode_write_blob sequence (config_txn_status done.0.0) total_length
            done.0.1,
        done.1,
      )

  -- `prv_handle_set_string`
  unfoldable pub handle_set_string : ℕ → List ℕ → S → List ℕ × S
  handle_set_string sequence request s =
      let total_length = get_or request 3 0 in
      let done =
        b.stage_string_chunk (get_or request 2 0) total_length (get_or request 4 0)
          (take 3 (drop 5 request)) s in
      (
        build_response opcode_set_string sequence (config_txn_status done.0.0) total_length
            done.0.1,
        done.1,
      )

  -- `prv_handle_set_global_percent`
  unfoldable pub handle_set_global_percent : ℕ → List ℕ → S → List ℕ × S
  handle_set_global_percent sequence request s =
      let ((status, generation, affected, excluded), t) =
        b.set_global_percent (read_u16_le request 2) s in
      let excluded_u8 = if ltb 0xff excluded then 0xff else u8 excluded in
      if not (bytes_are_zero_from request 4)
      then (build_response opcode_set_global_percent sequence bad_argument 0 0, s)
      else (
        build_response opcode_set_global_percent sequence (config_txn_status status) excluded_u8
            (bit_or generation (affected <<< 16)),
        t,
      )

  -- `prv_handle_commit_config`
  unfoldable pub handle_commit_config : ℕ → List ℕ → S → List ℕ × S
  handle_commit_config sequence request s =
      let ((committed, generation, signal_count, pgn_count), t) = b.commit_config s in
      let status = config_txn_status committed in
      let summary = bit_or generation (signal_count <<< 16) in
      if not (reserved_bytes_are_zero request)
      then (build_response opcode_commit_config sequence bad_argument 0 0, s)
      else (
        build_response opcode_commit_config sequence status pgn_count
            (if is_status_ok status then summary else 0),
        t,
      )

  -- `prv_handle_abort_config`
  unfoldable pub handle_abort_config : ℕ → List ℕ → S → List ℕ × S
  handle_abort_config sequence request s =
      if not (reserved_bytes_are_zero request)
      then (build_response opcode_abort_config sequence bad_argument 0 0, s)
      else (build_response opcode_abort_config sequence status_ok 0 0, b.abort_config s)

  -- `prv_handle_save_config`
  unfoldable pub handle_save_config : ℕ → List ℕ → S → List ℕ × S
  handle_save_config sequence request s =
      let ((saved, info), t) = b.persistence_save s in
      let status = persistence_control_status saved in
      if not (reserved_bytes_are_zero request)
      then (build_response opcode_save_config sequence bad_argument 0 0, s)
      else (
        build_response opcode_save_config sequence status
            (if is_status_ok status then info.slot else 0)
            (if is_status_ok status then info.config_crc else 0),
        t,
      )

  -- `prv_handle_load_saved`
  unfoldable pub handle_load_saved : ℕ → List ℕ → S → List ℕ × S
  handle_load_saved sequence request s =
      let ((loaded, generation, count, pgn_count), t) = b.persistence_load s in
      let status = persistence_control_status loaded in
      if not (reserved_bytes_are_zero request)
      then (build_response opcode_load_saved_config sequence bad_argument 0 0, s)
      else (
        build_response opcode_load_saved_config sequence status
            (if is_status_ok status then pgn_count else 0)
            (if is_status_ok status then bit_or generation (count <<< 16) else 0),
        t,
      )

  -- `prv_handle_erase_saved`
  unfoldable pub handle_erase_saved : ℕ → List ℕ → S → List ℕ × S
  handle_erase_saved sequence request s =
      let (erased, t) = b.persistence_erase s in
      if not (reserved_bytes_are_zero request)
      then (build_response opcode_erase_saved_config sequence bad_argument 0 0, s)
      else (
        build_response opcode_erase_saved_config sequence (persistence_control_status erased) 0 0,
        t,
      )

  -- `prv_handle_set_autostart`
  unfoldable pub handle_set_autostart : ℕ → List ℕ → S → List ℕ × S
  handle_set_autostart sequence request s =
      let enabled = get_or request 2 0 in
      let ((changed, info), t) = b.persistence_set_autostart (enabled != 0) s in
      let status = persistence_control_status changed in
      if ltb 1 enabled || not (bytes_are_zero_from request 3)
      then (build_response opcode_set_autostart sequence bad_argument 0 0, s)
      else (
        build_response opcode_set_autostart sequence status
            (if is_status_ok status then enabled else 0)
            (if is_status_ok status then info.sequence else 0),
        t,
      )
