-- ===== src/Examples/Bus.antt =====
-- MID/j1939_link.c, MID/j1939_rx_router.c, MID/j1939_tp.c: frames and a broadcast on a bus.
use teep_j1939_patent.Base.{
  ℕ, suc, ◌+◌, ◌≡◌, refl, arith, List, [], ◌∷◌, ◌++◌, some, true, false, u32, take, replicate,
}
use teep_j1939_patent.Frame.{FrameHeader}
use teep_j1939_patent.Frame.RoundTrip.{IsCanonical}
use teep_j1939_patent.HalCan.{Can, send_ext, CanFrame, RxMessage}
use teep_j1939_patent.Link.{send, send_to, receive, link_ok, link_status}
use teep_j1939_patent.Link.Delivery.{as_received, send_to-receive}
use teep_j1939_patent.RxRouter.{Router, Handler, poll}
use teep_j1939_patent.RxRouter.Poll.{IsPolled, poll-IsPolled}
use teep_j1939_patent.Tp.{
  Tp, tp_init, process, bam_start, is_busy, tp_prepared, tp_sending, bam_prepare, send_packet,
  build_packet, after_send, bam_abort_late_ms,
}
use teep_j1939_patent.Tp.Packets.{packet_count}
use teep_j1939_patent.Tp.Invariant.{
  op_prepare, op_start, op_process, tp_run, tp_apply, tp_run-init-IsValid, IsValid,
}
use teep_j1939_patent.Tp.Broadcast.{drive}
use teep_j1939_patent.Tp.Receiver.{started, received_message, broadcast_delivers}
use teep_j1939_patent.Tp.Pace.{process-gap, IsAborted, IsWaiting, drive-gives_up}

-- A started controller with free mailboxes and nothing received.
abbrev quiet_can : Can
quiet_can = record { started = true; mailbox_free = replicate 40 true; sent = []; fifo = [] }

abbrev eec1 : FrameHeader
eec1 = record { pgn = 61444; priority = 3; source_address = 0; destination_address = 255 }

eec1-IsCanonical : IsCanonical eec1
eec1-IsCanonical = record {
  fits = ground arith;
  priority_fits = omega arith;
  pgn_fits = omega arith;
  ps_empty = λ h. omega arith;
  broadcast = λ h. refl;
}

send_to-receive_example :
    let (status, can') = send_to quiet_can 61444 (1 ∷ 2 ∷ []) 3 0 255 in
    (f : CanFrame) × (status ≡ link_ok)
    × (can'.sent ≡ [] ++ f ∷ [])
    × ((rest : List RxMessage)
        → (receive (record quiet_can { fifo = as_received f ∷ rest })).0 ≡ some (eec1, 1 ∷ 2 ∷ []))
send_to-receive_example =
    send_to-receive quiet_can quiet_can eec1 (1 ∷ 2 ∷ []) (replicate 39 true) eec1-IsCanonical
      (omega arith) refl refl

-- A handler that counts its calls.
abbrev counting : Handler ℕ
counting header bytes n can = (n + 1, can)

abbrev control_message : RxMessage
control_message = record { extended = true; ext_id = 0x18ef80f9; dlc = 8; bytes = replicate 8 0 }

abbrev standard_message : RxMessage
standard_message = record { extended = false; ext_id = 0; dlc = 0; bytes = [] }

abbrev router : Router ℕ
router = record {
  handler = some counting;
  stats = record { received = 0; control_routed = 0; unhandled = 0 };
  can = record quiet_can { fifo = control_message ∷ standard_message ∷ control_message ∷ [] };
  client = 0;
}

poll-IsPolled_example : IsPolled 8 router (poll 8 router)
poll-IsPolled_example = poll-IsPolled 8 router counting refl (λ header bytes n can. refl)

-- The transmitter with a prepared message of 20 bytes, and started.
unfoldable prepared : Tp
prepared = tp_run (op_prepare 20 ∷ []) tp_init

prepared-IsValid : IsValid prepared
unfolding prepared
prepared-IsValid = tp_run-init-IsValid (op_prepare 20 ∷ [])

tp_run-init-IsValid_example :
    IsValid (tp_run (op_prepare 20 ∷ op_start 65260 0 100 ∷ op_process 100 quiet_can ∷ []) tp_init)
tp_run-init-IsValid_example =
    tp_run-init-IsValid (op_prepare 20 ∷ op_start 65260 0 100 ∷ op_process 100 quiet_can ∷ [])

prepared_state : prepared.session.state ≡ tp_prepared
unfolding prepared tp_run tp_apply bam_prepare tp_init is_busy
prepared_state = refl

prepared_length : prepared.session.length ≡ 20
unfolding prepared tp_run tp_apply bam_prepare tp_init is_busy
prepared_length = refl

free_mailboxes :
    quiet_can.mailbox_free
    ≡ replicate (suc (packet_count prepared.session.length)) true ++ replicate 36 true
free_mailboxes = rw prepared_length refl

broadcast_delivers_example :
    let r =
      drive (suc (packet_count prepared.session.length)) (started prepared 65260 0 100) quiet_can in
    (is_busy r.0 ≡ false)
    × (r.0.stats.completed ≡ u32 (prepared.stats.completed + 1))
    × ((frames : List CanFrame) × (r.1.sent ≡ [] ++ frames)
        × (received_message frames ≡ take prepared.session.length prepared.session.payload))
broadcast_delivers_example =
    broadcast_delivers prepared quiet_can (replicate 36 true) 65260 0 100 prepared-IsValid
      prepared_state (omega arith) refl free_mailboxes

-- The same session after its first frame.
unfoldable sending : Tp
sending = started prepared 65260 0 100

first_frame_sent : (process sending 100 quiet_can).0.stats.frames_sent ≡ 1
unfolding sending prepared tp_run tp_apply bam_prepare tp_init is_busy bam_start process send_packet
    send send_to send_ext link_status build_packet after_send
first_frame_sent = refl

none_before : sending.stats.frames_sent ≡ 0
unfolding sending prepared tp_run tp_apply bam_prepare tp_init is_busy bam_start
none_before = refl

process-gap_example :
    process (process sending 100 quiet_can).0 149 quiet_can
    ≡ ((process sending 100 quiet_can).0, quiet_can)
process-gap_example =
    process-gap sending 100 149 quiet_can quiet_can (omega arith) (omega arith)
      (omega (arith, none_before)) (λ same. omega (arith, none_before, first_frame_sent))
      (omega arith)

is_sending : sending.session.state ≡ tp_sending
unfolding sending prepared tp_run tp_apply bam_prepare tp_init is_busy bam_start
is_sending = refl

on_time : (sending.session.slot_ms ≡ 100) × (sending.session.next_due_ms ≡ 100)
unfolding sending prepared tp_run tp_apply bam_prepare tp_init is_busy bam_start
on_time = (refl, refl)

abbrev dead_can : Can
dead_can = record quiet_can { mailbox_free = [] }

drive-gives_up_example :
    IsWaiting sending dead_can 750 (drive 750 sending dead_can)
    × IsAborted sending dead_can (drive (suc bam_abort_late_ms) sending dead_can)
drive-gives_up_example =
    drive-gives_up sending dead_can 750 (omega arith) is_sending (omega (arith, on_time))
      (omega (arith, on_time)) refl
