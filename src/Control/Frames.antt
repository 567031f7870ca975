-- ===== src/Control/Frames.antt =====
-- APP/app_control_can.c: `prv_handle_control_frame`, from a received frame to the response.
use teep_j1939_patent.Base.{ℕ, ◌+◌, List, get_or, length, replicate, Bool, not, ◌&&◌, ◌||◌}
use teep_j1939_patent.Base.{ltb, ◌==◌, ◌!=◌, if◌then◌else◌, u32, bit_and}
use teep_j1939_patent.Frame.{FrameHeader}
use teep_j1939_patent.RxRouter.{pgn_proprietary_a_control, Handler}
use teep_j1939_patent.Control.Defs.{Control, Node, no_cache_entry, no_deferred_entry}
use teep_j1939_patent.Control.Defs.{ControlStatus, status_ok, bad_argument, bad_dlc}
use teep_j1939_patent.Control.Defs.{duplicate_conflict, unsupported_opcode, build_response}
use teep_j1939_patent.Control.Defs.{reserved_bytes_are_zero, control_priority, tester_address}
use teep_j1939_patent.Control.Defs.{stm32_address, response_mask, frame_length}
use teep_j1939_patent.Control.Defs.{dedup_cache_capacity, control_queue_capacity}
use teep_j1939_patent.Control.Queue.{send_response, process_responses}
use teep_j1939_patent.Control.Cache.{CacheResult, cache_miss, cache_replay, cache_conflict}
use teep_j1939_patent.Control.Cache.{cache_lookup, cache_store}
use teep_j1939_patent.Control.Backend.{Backend}
use teep_j1939_patent.Control.Commands.{
  opcode_tc1001, opcode_stop, opcode_start, opcode_get_status, opcode_clear_config,
  opcode_set_const, opcode_begin_config, opcode_set_signal_raw, opcode_commit_config,
  opcode_abort_config, opcode_write_blob, opcode_set_global_percent, opcode_set_string,
  opcode_save_config, opcode_load_saved_config, opcode_erase_saved_config, opcode_set_autostart,
  handle_stop, handle_start, handle_clear_config, handle_set_const, handle_begin_config,
  handle_set_signal_raw, handle_commit_config, handle_abort_config, handle_write_blob,
  handle_set_global_percent, handle_set_string, handle_save_config, handle_load_saved,
  handle_erase_saved, handle_set_autostart,
}
use teep_j1939_patent.Control.Status.{handle_get_status}

-- `App_Control_Can_Init`, before the calls of the persistence and of the router
unfoldable pub control_init : Control
control_init = record {
  stats = record {
    received = 0;
    ignored_endpoint = 0;
    ignored_response = 0;
    malformed_without_sequence = 0;
    responses_queued = 0;
    responses_busy = 0;
    responses_failed = 0;
    responses_deferred = 0;
    responses_dropped = 0;
    duplicate_replays = 0;
    duplicate_conflicts = 0;
  };
  cache = replicate dedup_cache_capacity no_cache_entry;
  cache_next = 0;
  tx_queue = replicate control_queue_capacity no_deferred_entry;
  tx_queue_head = 0;
  tx_queue_count = 0;
  tx_retry_not_before_ms = 0;
}

abbrev pub wrong_endpoint : FrameHeader → Bool
wrong_endpoint header =
    (header.pgn != pgn_proprietary_a_control)
    || (header.priority != control_priority)
    || (header.source_address != tester_address)
    || (header.destination_address != stm32_address)

module _ {S : Type 0} (b : Backend S) where
  -- The command that only answers
  unfoldable pub handle_tc1001 : ℕ → List ℕ → S → List ℕ × S
  handle_tc1001 sequence request s =
      if not (reserved_bytes_are_zero request)
      then (build_response opcode_tc1001 sequence bad_argument 0 0, s)
      else (build_response opcode_tc1001 sequence status_ok 0 0, s)

  -- The `switch` on the opcode: the response, and the state after the command
  unfoldable pub execute : ℕ → ℕ → List ℕ → S → List ℕ × S
  execute opcode sequence request s =
      if opcode == opcode_tc1001
      then handle_tc1001 sequence request s
      else if opcode == opcode_stop
      then handle_stop b sequence request s
      else if opcode == opcode_clear_config
      then handle_clear_config b sequence request s
      else if opcode == opcode_set_const
      then handle_set_const b sequence request s
      else if opcode == opcode_begin_config
      then handle_begin_config b sequence request s
      else if opcode == opcode_set_signal_raw
      then handle_set_signal_raw b sequence request s
      else if opcode == opcode_commit_config
      then handle_commit_config b sequence request s
      else if opcode == opcode_abort_config
      then handle_abort_config b sequence request s
      else if opcode == opcode_write_blob
      then handle_write_blob b sequence request s
      else if opcode == opcode_set_string
      then handle_set_string b sequence request s
      else if opcode == opcode_set_global_percent
      then handle_set_global_percent b sequence request s
      else if opcode == opcode_save_config
      then handle_save_config b sequence request s
      else if opcode == opcode_load_saved_config
      then handle_load_saved b sequence request s
      else if opcode == opcode_erase_saved_config
      then handle_erase_saved b sequence request s
      else if opcode == opcode_set_autostart
      then handle_set_autostart b sequence request s
      else if opcode == opcode_start
      then handle_start b sequence request s
      else if opcode == opcode_get_status
      then handle_get_status b sequence request s
      else (build_response opcode sequence unsupported_opcode 0 0, s)

  -- `prv_send_response`, which reads the time first
  unfoldable pub send_now : List ℕ → Node S → Node S
  send_now response n =
      let (now_ms, s) = b.time_ms n.app in send_response response now_ms (record n { app = s })

  -- `prv_build_and_send_uncached`
  unfoldable pub build_and_send_uncached : ℕ → ℕ → ControlStatus → ℕ → ℕ → Node S → Node S
  build_and_send_uncached opcode sequence status detail value n =
      send_now (build_response opcode sequence status detail value) n

  -- A request that the cache does not know: it is executed, remembered and answered.
  unfoldable pub handle_fresh : ℕ → List ℕ → ℕ → Node S → Node S
  handle_fresh source_address request now_ms n =
      let (response, s) = execute (get_or request 0 0) (get_or request 1 0) request n.app in
      send_now response record {
        control = cache_store source_address request response now_ms n.control;
        can = n.can;
        app = s;
      }

  -- The `switch` on the result of the lookup
  unfoldable pub handle_looked_up : CacheResult → ℕ → List ℕ → ℕ → Node S → Node S
  handle_looked_up (cache_replay response) source_address request now_ms n = send_now response n
  handle_looked_up cache_conflict source_address request now_ms n =
      build_and_send_uncached (get_or request 0 0) (get_or request 1 0) duplicate_conflict 0 0 n
  handle_looked_up cache_miss source_address request now_ms n =
      handle_fresh source_address request now_ms n

  -- A request of the right length with a sequence
  unfoldable pub handle_request : ℕ → List ℕ → Node S → Node S
  handle_request source_address request n =
      let (now_ms, s) = b.time_ms n.app in
      let found = cache_lookup source_address request now_ms n.control in
      handle_looked_up found.0 source_address request now_ms
        record { control = found.1; can = n.can; app = s }

  -- `prv_handle_control_frame` with a header and data that are not `NULL`
  unfoldable pub handle_control_frame : FrameHeader → List ℕ → Node S → Node S
  handle_control_frame header bytes n =
      let c = n.control in
      let seen = record c.stats { received = u32 (c.stats.received + 1) } in
      let counted : Node S = record n { control = record c { stats = seen } } in
      let opcode = get_or bytes 0 0 in
      let sequence = get_or bytes 1 0 in
      if wrong_endpoint header
      then record n {
        control = record c {
          stats = record seen { ignored_endpoint = u32 (c.stats.ignored_endpoint + 1) };
        };
      }
      else if ltb 0 (length bytes) && (bit_and opcode response_mask != 0)
      then record n {
        control = record c {
          stats = record seen { ignored_response = u32 (c.stats.ignored_response + 1) };
        };
      }
      else if ltb (length bytes) 2
      then record n {
        control = record c {
          stats = record seen {
            malformed_without_sequence = u32 (c.stats.malformed_without_sequence + 1);
          };
        };
      }
      else if length bytes != frame_length
      then build_and_send_uncached opcode sequence bad_dlc (length bytes) 0 counted
      else if sequence == 0
      then build_and_send_uncached opcode sequence bad_argument 0 0 counted
      else handle_request header.source_address bytes counted

  -- The handler that `App_Control_Can_Init` registers with the receive router
  unfoldable pub control_handler : Handler (Control × S)
  control_handler header bytes (control, s) can =
      let n = handle_control_frame header bytes record { control = control; can = can; app = s } in
      ((n.control, n.app), n.can)

  -- `App_Control_Can_Process`
  unfoldable pub control_process : Node S → Node S
  control_process n =
      let (now_ms, s) = b.time_ms n.app in process_responses now_ms (record n { app = s })
