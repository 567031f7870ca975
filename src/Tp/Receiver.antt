-- ===== src/Tp/Receiver.antt =====
-- MID/j1939_tp.c: what a receiver makes of a whole broadcast.
use teep_j1939_patent.Base.{ℕ, zero, suc, ◌+◌, ◌*◌, ◌%◌, ◌^◌, ◌<◌, ◌≡◌, sym, ap, ap₂, ◌∙◌, arith}
use teep_j1939_patent.Base.{
  List, [], ◌∷◌, ◌++◌, take, drop, replicate, append_assoc, append-nil, ◌/◌,
}
use teep_j1939_patent.Base.{u32, true, false, Bool}
use teep_j1939_patent.Base.{get_or}
use teep_j1939_patent.HalCan.{Can, CanFrame}
use teep_j1939_patent.Tp.{Tp, Session, tp_prepared}
use teep_j1939_patent.Tp.{build_packet, dt_bytes, is_busy}
use teep_j1939_patent.Tp.{bam_start}
use teep_j1939_patent.Tp.Invariant.{IsValid}
use teep_j1939_patent.Tp.Packets.{HasMessage, packet_count, sent_bytes, reassembly}
use teep_j1939_patent.Tp.Broadcast.{packet_frame, packet_frames, IsOnTime, drive, drive_rest}

-- A receiver: the length that the announcement names, of the joined data of the later frames.
unfoldable pub joined_data : List CanFrame → List ℕ
joined_data [] = []
joined_data (f ∷ fs) = drop 1 f.bytes ++ joined_data fs

unfoldable pub received_message : List CanFrame → List ℕ
received_message [] = []
received_message (cm ∷ dts) =
    take (get_or cm.bytes 1 0 + 256 * get_or cm.bytes 2 0) (joined_data dts)

packet_frame_data :
    (s : Session) (k : ℕ)
    → drop 1 (packet_frame s (suc k)).bytes ≡ dt_bytes (record s { next_packet = suc k })
unfolding packet_frame build_packet
packet_frame_data s k = ground arith

joined_data-packet_frames :
    (s : Session) (k n : ℕ)
    → sent_bytes s k ++ joined_data (packet_frames s (suc k) n) ≡ sent_bytes s (k + n)
unfolding joined_data packet_frames sent_bytes
joined_data-packet_frames s k zero =
    let e : k ≡ k + 0 = omega arith in append-nil _ ∙ ap (sent_bytes s) e
joined_data-packet_frames s k (suc n) =
    let e : suc k + n ≡ k + suc n = omega arith in
    let rest = joined_data (packet_frames s (suc (suc k)) n) in
    ap (λ d. sent_bytes s k ++ (d ++ rest)) (packet_frame_data s k)
    ∙ sym (append_assoc (sent_bytes s k) _ _)
    ∙ joined_data-packet_frames s (suc k) n
    ∙ ap (sent_bytes s) e

received_message-packet_frames :
    (s : Session)
    → HasMessage s
    → received_message (packet_frames s 0 (suc s.packets)) ≡ take s.length s.payload
unfolding received_message packet_frames packet_frame build_packet sent_bytes
received_message-packet_frames s m =
    let announced : s.length % 256 + 256 * ((s.length / 2 ^ 8) % 256) ≡ s.length =
      omega (arith, m.short) in
    let from_zero : 0 + s.packets ≡ s.packets = omega arith in
    ap (λ n. take n (joined_data (packet_frames s 1 s.packets))) announced
    ∙ ap (take s.length) (joined_data-packet_frames s 0 s.packets ∙ ap (sent_bytes s) from_zero)
    ∙ reassembly s m

-- A started session, before its first frame.
abbrev pub started : Tp → ℕ → ℕ → ℕ → Tp
started t pgn source_address now_ms = (bam_start t pgn source_address now_ms).1

started-IsOnTime :
    (t : Tp) (pgn source_address now_ms : ℕ)
    → IsValid t
    → t.session.state ≡ tp_prepared
    → now_ms < 2 ^ 32
    → IsOnTime (started t pgn source_address now_ms)
unfolding bam_start
started-IsOnTime t pgn source_address now_ms v prepared word = record {
  sending = ground (arith, prepared);
  message = record {
    long = ground (arith, prepared, v.long);
    short = ground (arith, prepared, v.short);
    stored = ground (arith, prepared, v.short, v.stored);
    counted = ground (arith, prepared, v.short);
  };
  next = ground (arith, prepared);
  slot = ground (arith, prepared);
  word = ground (arith, prepared);
}

started-same :
    (t : Tp) (pgn source_address now_ms : ℕ)
    → t.session.state ≡ tp_prepared
    → IsValid t
    → let t' = started t pgn source_address now_ms in
      (t'.session.next_packet ≡ 0)
      × (t'.session.packets ≡ packet_count t.session.length)
      × (t'.stats.completed ≡ t.stats.completed)
      × (t'.session.length ≡ t.session.length)
      × (t'.session.payload ≡ t.session.payload)
unfolding bam_start
started-same t pgn source_address now_ms prepared v = ground (arith, prepared, v.short)

-- A prepared message that is started with a controller that has a free mailbox for every packet,
-- and processed whenever the next attempt is due, is complete after one frame more than it has
-- packets: the session is idle, one more is counted as completed, and a receiver that joins the
-- data of the frames put on the bus, up to the length the first one announces, has the bytes of
-- the buffer.
pub broadcast_delivers :
    (t : Tp) (can : Can) (later : List Bool) (pgn source_address now_ms : ℕ)
    → IsValid t
    → t.session.state ≡ tp_prepared
    → now_ms < 2 ^ 32
    → can.started ≡ true
    → can.mailbox_free ≡ replicate (suc (packet_count t.session.length)) true ++ later
    → let r =
        drive (suc (packet_count t.session.length)) (started t pgn source_address now_ms) can in
      (is_busy r.0 ≡ false)
      × (r.0.stats.completed ≡ u32 (t.stats.completed + 1))
      × ((frames : List CanFrame) × (r.1.sent ≡ can.sent ++ frames)
          × (received_message frames ≡ take t.session.length t.session.payload))
broadcast_delivers t can later pgn source_address now_ms v prepared word on free =
    let t' = started t pgn source_address now_ms in
    let o = started-IsOnTime t pgn source_address now_ms v prepared word in
    let (first, packets, completed, length', payload) =
      started-same t pgn source_address now_ms prepared v in
    let b = drive_rest (packet_count t.session.length) t' can later o (omega arith) on free in
    (
      b.idle,
      b.completed ∙ ap (λ k. u32 (k + 1)) completed,
      (
        packet_frames t'.session 0 (suc t'.session.packets),
        b.on_bus ∙ ap₂ (λ k n. can.sent ++ packet_frames t'.session k (suc n)) first (sym packets),
        received_message-packet_frames t'.session o.message ∙ ap₂ take length' payload,
      ),
    )
