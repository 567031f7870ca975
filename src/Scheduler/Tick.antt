-- ===== src/Scheduler/Tick.antt =====
-- MID/j1939_tx_scheduler.c: one tick of the scheduler.
use teep_j1939_patent.Base.{
  ℕ, zero, suc, ◌+◌, ◌*◌, ◌/◌, List, [], ◌∷◌, Bool, true, false, not, ◌&&◌, ◌||◌,
}
use teep_j1939_patent.Base.{length, set, ltb, ◌==◌, ◌!=◌, if◌then◌else◌, u16, u32, sub32}
use teep_j1939_patent.Codec.{initialize_payload}
use teep_j1939_patent.Link.{LinkStatus, link_ok, link_busy, send}
use teep_j1939_patent.Tp.{is_busy, bam_prepare, fill_payload, bam_start, process}
use teep_j1939_patent.Scheduler.Defs.{
  TxEntry, Sched, TickResult, entry_at, catalog_pgn, entry_period_ms, pgn_needs_tp, time_reached,
}
use teep_j1939_patent.Scheduler.Queue.{enqueue, pop_queue_front}
use teep_j1939_patent.Scheduler.Pack.{pack_pgn, tx_length}

-- A frame one full period past its deadline.
unfoldable pub is_expired : TxEntry → ℕ → Bool
is_expired frame now_ms =
    (frame.period_ms != 0) && time_reached now_ms (u32 (frame.deadline_ms + frame.period_ms))

-- What the drain does when a send was not accepted.
unfoldable pub pause_queue : Sched → TickResult → ℕ → LinkStatus → Sched × TickResult
pause_queue s result now_ms link_busy = (
  record s {
    retry_not_before_ms = u32 (now_ms + 1);
    stats = record s.stats { busy = u32 (s.stats.busy + 1) };
  },
  record result { busy = u16 (result.busy + 1) },
)
pause_queue s result now_ms _ = (
  record s {
    retry_not_before_ms = u32 (now_ms + 1);
    stats = record s.stats { failed = u32 (s.stats.failed + 1) };
  },
  record result { failed = u16 (result.failed + 1) },
)

-- One turn of the loop of `prv_drain_queue` on the front frame: whether the loop goes on.
unfoldable pub drain_step : Sched → TickResult → ℕ → TxEntry → Bool × (Sched × TickResult)
drain_step s result now_ms frame =
    if is_expired frame now_ms
    then (
      true,
      (
        pop_queue_front
            (record s { stats = record s.stats { expired = u32 (s.stats.expired + 1) } }),
        record result { expired = u16 (result.expired + 1) },
      ),
    )
    else let pgn = catalog_pgn (entry_at s.pgns frame.pgn_slot) in
      let (status, can') = send s.can pgn.pgn frame.payload pgn.priority pgn.source_address in
      let tried = record s { can = can'; tx_seq = u32 (s.tx_seq + 1) } in
      elim status [
        | link_ok ↦ (
          true,
          (
            pop_queue_front
                (record tried { stats = record s.stats { sent = u32 (s.stats.sent + 1) } }),
            record result { sent = u16 (result.sent + 1) },
          ),
        )
        | other ↦ (false, pause_queue tried result now_ms other)
      ]

-- The loop of `prv_drain_queue`; the list is the queue, whose front every turn but the last pops.
unfoldable pub drain_loop : List TxEntry → Sched → TickResult → ℕ → Sched × TickResult
drain_loop [] s result now_ms = (s, result)
drain_loop (frame ∷ frames) s result now_ms =
    let (goes_on, after) = drain_step s result now_ms frame in
    elim goes_on [ true ↦ drain_loop frames after.0 after.1 now_ms | false ↦ after ]

-- `prv_drain_queue`
unfoldable pub drain_queue : Sched → TickResult → ℕ → Sched × TickResult
drain_queue s result now_ms =
    if ltb 0 (length s.queue) && not (time_reached now_ms s.retry_not_before_ms)
    then (s, result)
    else drain_loop s.queue s result now_ms

-- `prv_schedule_due_pgn`
unfoldable pub schedule_due_pgn : Sched → TickResult → ℕ → ℕ → ℕ → Sched × TickResult
schedule_due_pgn s result pgn_slot period_ms deadline_ms =
    let (payload, packed_any) =
      pack_pgn s.store (catalog_pgn (entry_at s.pgns pgn_slot)) initialize_payload 8 in
    let frame : TxEntry = record {
      deadline_ms = deadline_ms;
      period_ms = period_ms;
      payload = payload;
      pgn_slot = pgn_slot;
    } in
    if not packed_any
    then (s, result)
    else let (accepted, s') = enqueue s frame in
      (
        s',
        (if accepted
            then record result { enqueued = u16 (result.enqueued + 1) }
            else record result { dropped = u16 (result.dropped + 1) }),
      )

abbrev set_pending : Sched → ℕ → Bool → Sched
set_pending s slot pending = record s {
  pgns = set s.pgns slot (record (entry_at s.pgns slot) { tp_pending = pending });
}

-- `prv_start_tp_pgn`
unfoldable pub start_tp_pgn : Sched → ℕ → ℕ → Sched
start_tp_pgn s pgn_slot now_ms =
    let pgn = catalog_pgn (entry_at s.pgns pgn_slot) in
    let (prepared, tp') = bam_prepare s.tp (tx_length pgn) in
    let (payload, packed_any) = pack_pgn s.store pgn tp'.session.payload (tx_length pgn) in
    let filled = fill_payload tp' payload in
    if not prepared then set_pending s pgn_slot true else record (set_pending s pgn_slot false) {
      tp = if packed_any then (bam_start filled pgn.pgn pgn.source_address now_ms).1 else filled;
    }

-- The first loop of `J1939_Sched_Tick`: `left` entries from `i` on, until a session sends.
unfoldable pub start_pending : ℕ → ℕ → Sched → ℕ → Sched
start_pending zero i s now_ms = s
start_pending (suc left) i s now_ms =
    let next = if (entry_at s.pgns i).tp_pending then start_tp_pgn s i now_ms else s in
    elim (is_busy s.tp) [ true ↦ s | false ↦ start_pending left (i + 1) next now_ms ]

-- The slot arithmetic of the second loop.
unfoldable pub periods_late : ℕ → ℕ → ℕ → ℕ
periods_late now_ms next_due_ms period_ms = sub32 now_ms next_due_ms / period_ms

unfoldable pub latest_slot_ms : ℕ → ℕ → ℕ → ℕ
latest_slot_ms now_ms next_due_ms period_ms =
    u32 (next_due_ms + u32 (periods_late now_ms next_due_ms period_ms * period_ms))

unfoldable pub next_slot_ms : ℕ → ℕ → ℕ → ℕ
next_slot_ms now_ms next_due_ms period_ms =
    u32 (next_due_ms + u32 ((periods_late now_ms next_due_ms period_ms + 1) * period_ms))

-- One turn of the second loop of `J1939_Sched_Tick`, on entry `i`.
unfoldable pub run_due_entry : ℕ → ℕ → Sched × TickResult → Sched × TickResult
run_due_entry now_ms i (s, result) =
    let entry = entry_at s.pgns i in
    let period_ms = entry_period_ms entry in
    let late = periods_late now_ms entry.next_due_ms period_ms in
    let moved = record entry { next_due_ms = next_slot_ms now_ms entry.next_due_ms period_ms } in
    let s' = record s {
      pgns = set s.pgns i moved;
      stats =
          if ltb 0 late
          then record s.stats { deadline_missed = u32 (s.stats.deadline_missed + late) }
          else s.stats;
    } in
    let result' =
      if ltb 0 late
      then record result { deadline_missed = u16 (result.deadline_missed + u16 late) }
      else result in
    if (period_ms == 0) || not (time_reached now_ms entry.next_due_ms)
    then (s, result)
    else if pgn_needs_tp (catalog_pgn entry)
    then (start_tp_pgn s' i now_ms, result')
    else schedule_due_pgn s' result' i period_ms (latest_slot_ms now_ms entry.next_due_ms period_ms)

-- The second loop: `left` entries from `i` on.
unfoldable pub run_due : ℕ → ℕ → ℕ → Sched × TickResult → Sched × TickResult
run_due now_ms zero i before = before
run_due now_ms (suc left) i before = run_due now_ms left (i + 1) (run_due_entry now_ms i before)

abbrev pub no_result : TickResult
no_result = record {
  enqueued = 0;
  sent = 0;
  busy = 0;
  failed = 0;
  dropped = 0;
  deadline_missed = 0;
  expired = 0;
}

-- `J1939_Sched_Tick`
unfoldable pub tick : Sched → ℕ → Sched × TickResult
tick s now_ms =
    let pending = start_pending (length s.pgns) 0 s now_ms in
    let (due, counted) = run_due now_ms (length pending.pgns) 0 (pending, no_result) in
    let (drained, result) = drain_queue due counted now_ms in
    let (tp', can') = process drained.tp now_ms drained.can in
    (record drained { tp = tp'; can = can' }, result)
