-- ===== src/Tp/Broadcast.antt =====
-- MID/j1939_tp.c: a whole broadcast on a bus with free mailboxes, and its pace.
use teep_j1939_patent.Base.{ℕ, zero, suc, ◌+◌, ◌-◌, ◌^◌, ◌≤◌, ◌<◌, ◌≡◌, refl, ap, ap₂, ◌∙◌, arith}
use teep_j1939_patent.Base.{List, [], ◌∷◌, ◌++◌, length, replicate, append_assoc}
use teep_j1939_patent.Base.{u32, true, false, Bool}
use teep_j1939_patent.Base.{bit_and}
use teep_j1939_patent.Frame.{addr_global, build_id}
use teep_j1939_patent.HalCan.{Can, CanFrame, send_ext}
use teep_j1939_patent.Link.{link_ok, send, send_to, link_status}
use teep_j1939_patent.Tp.{Tp, Session, tp_sending}
use teep_j1939_patent.Tp.{process, after_send, build_packet, dt_bytes, send_packet, is_busy}
use teep_j1939_patent.Tp.{pgn_tp_cm, pgn_tp_dt, tp_priority}
use teep_j1939_patent.Tp.Packets.{HasMessage, length-dt_bytes}

-- The frame of packet `k` of a session: the broadcast announcement for 0, TP.DT `k` after it.
unfoldable pub packet_frame : Session → ℕ → CanFrame
packet_frame s k = record {
  can_id =
      bit_and
        (build_id (record {
          pgn = elim k [ zero ↦ pgn_tp_cm | suc _ ↦ pgn_tp_dt ];
          priority = tp_priority;
          source_address = s.source_address;
          destination_address = addr_global;
        }))
        0x1fff_ffff;
  bytes = build_packet (record s { next_packet = k });
}

-- The frames of `n` packets from `k` on.
unfoldable pub packet_frames : Session → ℕ → ℕ → List CanFrame
packet_frames s k zero = []
packet_frames s k (suc n) = packet_frame s k ∷ packet_frames s (suc k) n

length-build_packet :
    (s : Session) → HasMessage s → s.next_packet ≤ s.packets → length (build_packet s) ≡ 8
unfolding build_packet
length-build_packet s m h = ground (arith, length-dt_bytes s m (s.next_packet - 1))

-- A due packet goes out through a free mailbox.
send_packet-sent :
    (s : Session) (can : Can) (later : List Bool)
    → HasMessage s
    → s.next_packet ≤ s.packets
    → can.started ≡ true
    → can.mailbox_free ≡ true ∷ later
    → send_packet s can ≡ (
      link_ok,
      record can { mailbox_free = later; sent = can.sent ++ packet_frame s s.next_packet ∷ [] },
    )
unfolding send_packet send send_to send_ext link_status packet_frame
send_packet-sent s can later m h on free = ground (arith, length-build_packet s m)

-- A session whose next packet is due at its own slot.
pub record IsOnTime (t : Tp) : Type 0 where
  pub sending : t.session.state ≡ tp_sending
  pub message : HasMessage t.session
  pub next : t.session.next_packet ≤ t.session.packets
  pub slot : t.session.slot_ms ≡ t.session.next_due_ms
  pub word : t.session.next_due_ms < 2 ^ 32

abbrev with_frame : Can → Session → List Bool → Can
with_frame can s later = record can {
  mailbox_free = later;
  sent = can.sent ++ packet_frame s s.next_packet ∷ [];
}

process-sent :
    (t : Tp) (can : Can) (later : List Bool)
    → IsOnTime t
    → can.started ≡ true
    → can.mailbox_free ≡ true ∷ later
    → process t t.session.next_due_ms can
      ≡ (after_send t link_ok t.session.next_due_ms, with_frame can t.session later)
unfolding process is_busy
process-sent t can later o on free = ground (
  arith,
  o.sending,
  o.slot,
  o.word,
  send_packet-sent t.session can later o.message o.next on free,
)

-- The frames of two sessions with the same message are the same.
same_frame :
    (t : Tp) (now_ms : ℕ)
    → t.session.next_packet < t.session.packets
    → (k : ℕ) → packet_frame (after_send t link_ok now_ms).session k ≡ packet_frame t.session k
unfolding after_send packet_frame build_packet dt_bytes
same_frame t now_ms h k = ground (arith)

after_send-IsOnTime :
    (t : Tp) (now_ms : ℕ)
    → IsOnTime t
    → t.session.next_packet < t.session.packets
    → IsOnTime (after_send t link_ok now_ms)
unfolding after_send
after_send-IsOnTime t now_ms o more = record {
  sending = ground (arith, o.sending);
  message = record {
    long = ground (arith, o.message.long);
    short = ground (arith, o.message.short);
    stored = ground (arith, o.message.stored);
    counted = ground (arith, o.message.counted);
  };
  next = ground (arith, o.message.counted, o.message.short);
  slot = ground arith;
  word = ground arith;
}

-- The main loop calls `J1939_Tp_Process` when the next attempt is due, `n` times.
unfoldable pub drive : ℕ → Tp → Can → Tp × Can
drive zero t can = (t, can)
drive (suc n) t can = let (t', can') = process t t.session.next_due_ms can in drive n t' can'

last_sent :
    (t : Tp) (now_ms : ℕ)
    → t.session.next_packet ≡ t.session.packets
    → (is_busy (after_send t link_ok now_ms) ≡ false)
      × ((after_send t link_ok now_ms).stats.completed ≡ u32 (t.stats.completed + 1))
unfolding after_send is_busy
last_sent t now_ms h = ground arith

same_completed :
    (t : Tp) (now_ms : ℕ)
    → t.session.next_packet < t.session.packets
    → ((after_send t link_ok now_ms).stats.completed ≡ t.stats.completed)
      × ((after_send t link_ok now_ms).session.packets ≡ t.session.packets)
unfolding after_send
same_completed t now_ms h = ground arith

next_sent :
    (t : Tp) (now_ms : ℕ)
    → HasMessage t.session
    → t.session.next_packet < t.session.packets
    → (after_send t link_ok now_ms).session.next_packet ≡ suc t.session.next_packet
unfolding after_send
next_sent t now_ms m h = ground (arith, m.counted, m.short)

packet_frames-same :
    (s s' : Session)
    → ((k : ℕ) → packet_frame s' k ≡ packet_frame s k)
    → (k n : ℕ) → packet_frames s' k n ≡ packet_frames s k n
unfolding packet_frames
packet_frames-same s s' same k zero = refl
packet_frames-same s s' same k (suc n) = ap₂ ◌∷◌ (same k) (packet_frames-same s s' same (suc k) n)

-- What a finished broadcast leaves.
pub record IsBroadcast (t : Tp) (can : Can) (frames : List CanFrame) (r : Tp × Can) : Type 0 where
  pub idle : is_busy r.0 ≡ false
  pub completed : r.0.stats.completed ≡ u32 (t.stats.completed + 1)
  pub on_bus : r.1.sent ≡ can.sent ++ frames

pub drive_rest :
    (n : ℕ) (t : Tp) (can : Can) (later : List Bool)
    → IsOnTime t
    → t.session.next_packet + n ≡ t.session.packets
    → can.started ≡ true
    → can.mailbox_free ≡ replicate (suc n) true ++ later
    → IsBroadcast t can
        (packet_frames t.session t.session.next_packet (suc n))
        (drive (suc n) t can)
unfolding drive packet_frames
drive_rest zero t can later o rest on free =
    let sent = process-sent t can later o on free in
    let last = last_sent t t.session.next_due_ms (omega arith) in
    rw sent (record { idle = last.0; completed = last.1; on_bus = refl })
drive_rest (suc n) t can later o rest on free =
    let due = t.session.next_due_ms in
    let more : t.session.next_packet < t.session.packets = omega arith in
    let t' = after_send t link_ok due in
    let can' = with_frame can t.session (replicate (suc n) true ++ later) in
    let (same, packets) = same_completed t due more in
    let step = next_sent t due o.message more in
    let ih = drive_rest n t' can' later (after_send-IsOnTime t due o more) (omega arith) on refl in
    rw (process-sent t can (replicate (suc n) true ++ later) o on free) (record {
      idle = ih.idle;
      completed = ih.completed ∙ ap (λ k. u32 (k + 1)) same;
      on_bus =
          ih.on_bus
          ∙ ap (λ k. can'.sent ++ packet_frames t'.session k (suc n)) step
          ∙ ap (λ fs. can'.sent ++ fs)
              (packet_frames-same t.session t'.session (same_frame t due more)
                (suc t.session.next_packet) (suc n))
          ∙ append_assoc can.sent _ _;
    })
