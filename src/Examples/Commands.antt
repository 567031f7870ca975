-- ===== src/Examples/Commands.antt =====
-- APP/app_control_can.c with a small program behind it: a clock and whether it transmits.
use teep_j1939_patent.Base.{ℕ, ◌+◌, ◌≡◌, refl, arith, List, [], ◌∷◌, Bool, true, false}
use teep_j1939_patent.Base.{sub32, length}
use teep_j1939_patent.Frame.{FrameHeader}
use teep_j1939_patent.HalCan.{Can, send_ext}
use teep_j1939_patent.Link.{send_to, link_status}
use teep_j1939_patent.Storage.Defs.{Info}
use teep_j1939_patent.Control.Defs.{Node, bytes_equal, build_response, status_code}
use teep_j1939_patent.Control.Queue.{send_response, process_responses, defer_response}
use teep_j1939_patent.Control.Queue.{tx_queue_contains, queue_contains_loop, count_refused}
use teep_j1939_patent.Control.Cache.{
  cache_miss, cache_lookup, cache_lookup_loop, count_result, cache_store,
}
use teep_j1939_patent.Control.Backend.{Backend, set_const_ok}
use teep_j1939_patent.Control.Backend.{config_ok, persistence_empty}
use teep_j1939_patent.Control.Commands.{handle_start}
use teep_j1939_patent.Control.Frames.{
  control_init, execute, send_now, handle_fresh, handle_looked_up,
}
use teep_j1939_patent.Control.Frames.{handle_request, handle_control_frame}
use teep_j1939_patent.Control.Fifo.{IsRing, queued}
use teep_j1939_patent.Control.Waiting.{Refines, send_list, retry_list}
use teep_j1939_patent.Control.Delivery.{send_response-Refines, process_responses-Refines}
use teep_j1939_patent.Control.Replay.{first_ms, again_at, executed, handle_request-replay}
use teep_j1939_patent.Control.Echo.{IsReply, execute-IsReply}
use teep_j1939_patent.Control.Dispatch.{Handled, handle_control_frame-Handled}

-- The clock, the number of starts, and whether the program transmits
record Demo : Type 0 where
  clock : ℕ
  starts : ℕ
  running : Bool

abbrev no_info : Info
no_info = record {
  sequence = 0;
  config_crc = 0;
  bitrate_bps = 0;
  signal_count = 0;
  scalar_count = 0;
  flags = 0;
  profile_id = 0xff;
  blob_count = 0;
  slot = 0;
}

abbrev demo : Backend Demo
demo = record {
  time_ms = λ s. (s.clock, record s { clock = s.clock + 1 });
  set_constant_raw = λ key raw s. ((set_const_ok, raw), s);
  active_profile_can_start = λ s. true;
  cancel_autostart = λ s. s;
  start = λ s. record s { starts = s.starts + 1; running = true };
  stop = λ s. record s { running = false };
  clear = λ s. s;
  is_running = λ s. s.running;
  is_engine_speed_configured = λ s. false;
  config_transaction_open = λ s. false;
  config_transaction_rejected = λ s. false;
  get_config_generation = λ s. 0;
  get_active_signal_count = λ s. 0;
  get_active_pgn_count = λ s. 0;
  get_config_crc = λ s. 0;
  get_active_profile_id = λ s. 0xff;
  get_bus_recovery_count = λ s. 0;
  get_bus_error = λ s. (
    record { tec = 0; rec = 0; error_warning = false; error_passive = false; bus_off = false },
    s,
  );
  get_boot_info = λ s. record {
    result = 0;
    load_status = 1;
    autostart = 0;
    reset_cause = 0;
    watchdog_streak = 0;
  };
  begin_profile_config = λ scalars blobs profile s. (config_ok, s);
  stage_constant_raw = λ key raw s. ((config_ok, 1), s);
  stage_blob_chunk = λ key total offset chunk s. ((config_ok, 3), s);
  stage_string_chunk = λ key total offset chunk s. ((config_ok, 3), s);
  set_global_percent = λ percent s. ((config_ok, 1, 0, 0), s);
  commit_config = λ s. ((config_ok, 1, 1, 1), s);
  abort_config = λ s. s;
  persistence_save = λ s. ((persistence_empty, no_info), s);
  persistence_load = λ s. ((persistence_empty, 0, 0, 0), s);
  persistence_erase = λ s. (persistence_empty, s);
  persistence_set_autostart = λ enabled s. ((persistence_empty, no_info), s);
  persistence_get_info = λ s. (
    (
      persistence_empty,
      record {
        valid = false;
        autostart = false;
        dirty = false;
        stored = no_info;
        last_status = persistence_empty;
      },
    ),
    s,
  );
}

-- One mailbox is free, then none.
abbrev bus : Can
bus = record {
  started = true;
  mailbox_free = true ∷ false ∷ false ∷ true ∷ [];
  sent = [];
  fifo = [];
}

abbrev idle : Node Demo
idle = record {
  control = control_init;
  can = bus;
  app = record { clock = 100; starts = 0; running = false };
}

abbrev start_request : List ℕ
start_request = 3 ∷ 7 ∷ 0 ∷ 0 ∷ 0 ∷ 0 ∷ 0 ∷ 0 ∷ []

abbrev tester : FrameHeader
tester = record { pgn = 61184; priority = 6; source_address = 0xf9; destination_address = 0x80 }

ring : IsRing control_init
unfolding control_init
ring = record { sized = refl; head = omega arith; count = omega arith }

-- START twice: one start, two equal answers, of which the second waits for a mailbox.
abbrev twice : Node Demo
twice = handle_request demo 0xf9 start_request (handle_request demo 0xf9 start_request idle)

started_once :
    (twice.app.starts ≡ 1) × (length twice.can.sent ≡ 1) × (length (queued twice.control) ≡ 1)
unfolding control_init handle_request handle_looked_up handle_fresh execute handle_start send_now
    send_response cache_lookup cache_lookup_loop count_result cache_store build_response status_code
    defer_response tx_queue_contains queue_contains_loop count_refused send_to send_ext link_status
    bytes_equal
started_once = (refl, refl, refl)

send_response-Refines_example :
    Refines
      (send_response start_request 100 idle)
      (send_list start_request 100 (queued control_init) bus)
send_response-Refines_example = send_response-Refines start_request 100 idle ring

twice-IsRing : IsRing twice.control
unfolding control_init handle_request handle_looked_up handle_fresh execute handle_start send_now
    send_response cache_lookup cache_lookup_loop count_result cache_store build_response status_code
    defer_response tx_queue_contains queue_contains_loop count_refused send_to send_ext link_status
    bytes_equal
twice-IsRing = record { sized = refl; head = omega arith; count = omega arith }

-- The response that waits is sent when the controller takes it.
process_responses-Refines_example :
    Refines
      (process_responses 110 twice)
      (retry_list 110 twice.control.tx_retry_not_before_ms (queued twice.control) twice.can)
process_responses-Refines_example = process_responses-Refines 110 twice twice-IsRing

fresh : (cache_lookup 0xf9 start_request (first_ms demo idle) control_init).0 ≡ cache_miss
unfolding control_init cache_lookup cache_lookup_loop
fresh = refl

soon : (sub32 (again_at demo 0xf9 start_request idle).0 (first_ms demo idle)) ≡ 2
unfolding control_init handle_request handle_looked_up handle_fresh execute handle_start send_now
    send_response cache_lookup cache_lookup_loop count_result cache_store build_response status_code
    defer_response tx_queue_contains queue_contains_loop count_refused send_to send_ext link_status
    bytes_equal
soon = refl

cache_room : control_init.cache_next ≡ 0
unfolding control_init
cache_room = refl

entries : length control_init.cache ≡ 16
unfolding control_init
entries = refl

handle_request-replay_example :
    ((handle_request demo 0xf9 start_request idle).app
      ≡ (demo.time_ms (executed demo start_request idle).1).1)
    × (twice
        ≡ send_now demo (executed demo start_request idle).0 (record {
          control =
              (cache_lookup 0xf9 start_request
                (again_at demo 0xf9 start_request idle).0
                (handle_request demo 0xf9 start_request idle).control).1;
          can = (handle_request demo 0xf9 start_request idle).can;
          app = (again_at demo 0xf9 start_request idle).1;
        }))
handle_request-replay_example =
    handle_request-replay demo 0xf9 start_request idle (omega (arith, cache_room, entries)) fresh
      (omega (arith, soon))

execute-IsReply_example : IsReply 3 7 (execute demo 3 7 start_request idle.app).0
execute-IsReply_example = execute-IsReply demo 7 start_request idle.app 3

-- A frame of another sender is no request.
handle_control_frame-Handled_example :
    Handled demo
      (record tester { source_address = 0xf8 })
      start_request
      idle
      (handle_control_frame demo (record tester { source_address = 0xf8 }) start_request idle)
handle_control_frame-Handled_example =
    handle_control_frame-Handled demo (record tester { source_address = 0xf8 }) start_request idle
