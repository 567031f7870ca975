-- ===== src/Tp.antt =====
-- MID/j1939_tp.{h,c}: the J1939-21 BAM transmitter, one session at a time.
pub mod Packets
pub mod Invariant
pub mod Broadcast
pub mod Receiver
pub mod Pace
use teep_j1939_patent.Base.{
  ℕ, ◌+◌, ◌-◌, ◌*◌, ◌/◌, ◌%◌, ◌^◌, List, [], ◌∷◌, ◌++◌, take, drop, replicate,
}
use teep_j1939_patent.Base.{
  Bool, true, false, not, ◌&&◌, ◌||◌, ltb, leb, ◌==◌, if◌then◌else◌, u8, u16, u32,
}
use teep_j1939_patent.Base.{sub16, sub32, ◌>>>◌}
use teep_j1939_patent.HalCan.{Can}
use teep_j1939_patent.Link.{LinkStatus, link_ok, link_busy, link_error, send}

abbrev pub pgn_tp_cm : ℕ
pgn_tp_cm = 0xec00

abbrev pub pgn_tp_dt : ℕ
pgn_tp_dt = 0xeb00

abbrev pub tp_cm_bam : ℕ
tp_cm_bam = 32

abbrev pub tp_priority : ℕ
tp_priority = 7

abbrev pub dt_data_bytes : ℕ
dt_data_bytes = 7

abbrev pub tp_max_payload_bytes : ℕ
tp_max_payload_bytes = 200

abbrev pub bam_packet_gap_ms : ℕ
bam_packet_gap_ms = 50

abbrev pub bam_abort_late_ms : ℕ
bam_abort_late_ms = 750

-- `Tp_State_t`
pub data TpState : Type 0 where
  tp_idle tp_prepared tp_sending : TpState

-- `Tp_Session_t`
pub record Session : Type 0 where
  pub payload : List ℕ
  pub pgn : ℕ
  pub next_due_ms : ℕ
  pub slot_ms : ℕ
  pub length : ℕ
  pub packets : ℕ
  pub next_packet : ℕ
  pub source_address : ℕ
  pub state : TpState

-- `J1939_Tp_Stats_t`
pub record TpStats : Type 0 where
  pub started : ℕ
  pub completed : ℕ
  pub aborted : ℕ
  pub frames_sent : ℕ
  pub busy : ℕ

-- `s_session` and `s_stats`
pub record Tp : Type 0 where
  pub session : Session
  pub stats : TpStats

-- `prv_time_reached`: the `int32_t` of a wrapping difference is at least 0.
abbrev pub time_reached : ℕ → ℕ → Bool
time_reached now_ms deadline_ms = ltb (sub32 now_ms deadline_ms) (2 ^ 31)

-- The data bytes of packet `next_packet`, from `offset` on; `memset` put 0xff behind them.
unfoldable pub dt_bytes : Session → List ℕ
dt_bytes s =
    let offset = u16 ((s.next_packet - 1) * dt_data_bytes) in
    let remaining = sub16 s.length offset in
    let count = if ltb remaining dt_data_bytes then remaining else dt_data_bytes in
    take count (drop offset s.payload) ++ replicate (dt_data_bytes - count) 0xff

-- `prv_build_packet`
unfoldable pub build_packet : Session → List ℕ
build_packet s =
    if s.next_packet == 0
    then tp_cm_bam
      ∷ u8 s.length
      ∷ u8 (s.length >>> 8)
      ∷ s.packets
      ∷ 0xff
      ∷ u8 s.pgn
      ∷ u8 (s.pgn >>> 8)
      ∷ u8 (s.pgn >>> 16)
      ∷ []
    else s.next_packet ∷ dt_bytes s

-- `J1939_Tp_Init`
unfoldable pub tp_init : Tp
tp_init = record {
  session = record {
    payload = replicate tp_max_payload_bytes 0;
    pgn = 0;
    next_due_ms = 0;
    slot_ms = 0;
    length = 0;
    packets = 0;
    next_packet = 0;
    source_address = 0;
    state = tp_idle;
  };
  stats = record { started = 0; completed = 0; aborted = 0; frames_sent = 0; busy = 0 };
}

-- `J1939_Tp_Is_Busy`
unfoldable pub is_busy : Tp → Bool
is_busy t = elim t.session.state [ tp_sending ↦ true | _ ↦ false ]

-- `J1939_Tp_Cancel`
unfoldable pub cancel : Tp → Tp
cancel t = record {
  session = record t.session { state = tp_idle };
  stats = elim t.session.state [
    | tp_sending ↦ record t.stats { aborted = u32 (t.stats.aborted + 1) }
    | _ ↦ t.stats
  ];
}

-- `J1939_Tp_Bam_Prepare`: whether the buffer was handed out, and the state after it.
unfoldable pub bam_prepare : Tp → ℕ → Bool × Tp
bam_prepare t length =
    if is_busy t || leb length 8 || ltb tp_max_payload_bytes length then (false, t) else (
      true,
      record t {
        session = record t.session {
          payload = replicate tp_max_payload_bytes 0xff;
          length = length;
          state = tp_prepared;
        };
      },
    )

-- What the owner of the prepared buffer does with it.
abbrev pub fill_payload : Tp → List ℕ → Tp
fill_payload t bytes = record t { session = record t.session { payload = bytes } }

-- `J1939_Tp_Bam_Start`
unfoldable pub bam_start : Tp → ℕ → ℕ → ℕ → Bool × Tp
bam_start t pgn source_address now_ms = elim t.session.state [
  | tp_prepared ↦ (
    true,
    record {
      session = record t.session {
        pgn = pgn;
        source_address = source_address;
        packets = u8 ((t.session.length + dt_data_bytes - 1) / dt_data_bytes);
        next_packet = 0;
        slot_ms = now_ms;
        next_due_ms = now_ms;
        state = tp_sending;
      };
      stats = record t.stats { started = u32 (t.stats.started + 1) };
    },
  )
  | _ ↦ (false, t)
]

-- The rest of `J1939_Tp_Process` after an attempt to send.
unfoldable pub after_send : Tp → LinkStatus → ℕ → Tp
after_send t link_ok now_ms =
    let sent = record t.stats { frames_sent = u32 (t.stats.frames_sent + 1) } in
    if leb t.session.packets t.session.next_packet
    then record {
      session = record t.session { state = tp_idle };
      stats = record sent { completed = u32 (sent.completed + 1) };
    }
    else record {
      session = record t.session {
        next_packet = u8 (t.session.next_packet + 1);
        slot_ms = u32 (now_ms + bam_packet_gap_ms);
        next_due_ms = u32 (now_ms + bam_packet_gap_ms);
      };
      stats = sent;
    }
after_send t _ now_ms = record {
  session = record t.session { next_due_ms = u32 (now_ms + 1) };
  stats = record t.stats { busy = u32 (t.stats.busy + 1) };
}

-- The frame of the current packet: PGN, bytes, priority and source.
unfoldable pub send_packet : Session → Can → LinkStatus × Can
send_packet s can =
    send can (if s.next_packet == 0 then pgn_tp_cm else pgn_tp_dt) (build_packet s) tp_priority
      s.source_address

-- `J1939_Tp_Process`
unfoldable pub process : Tp → ℕ → Can → Tp × Can
process t now_ms can =
    if not (is_busy t) || not (time_reached now_ms t.session.next_due_ms)
    then (t, can)
    else if time_reached now_ms (u32 (t.session.slot_ms + bam_abort_late_ms))
    then (cancel t, can)
    else let (status, can') = send_packet t.session can in (after_send t status now_ms, can')
