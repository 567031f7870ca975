-- ===== src/Scheduler/Queue.antt =====
-- MID/j1939_tx_scheduler.c: the transmit queue, kept in the order of sending.
use teep_j1939_patent.Base.{ℕ, zero, suc, ◌+◌, ◌-◌, ◌^◌, List, [], ◌∷◌, ◌++◌, Bool, true, false}
use teep_j1939_patent.Base.{length, take, drop, get_or, ltb, leb, ◌!=◌, if◌then◌else◌, u32, sub32}
use teep_j1939_patent.Scheduler.Defs.{
  PgnEntry, TxEntry, Sched, entry_at, entry_can_id, tx_queue_capacity,
}

-- `prv_queue_class`
unfoldable pub queue_class : ℕ → ℕ
queue_class period_ms = if leb period_ms 20 then 0 else 1

-- `prv_queue_before`; the `int32_t` of a wrapping difference is negative from 2^31 on.
unfoldable pub queue_before : List PgnEntry → TxEntry → TxEntry → Bool
queue_before pgns lhs rhs =
    let lhs_class = queue_class lhs.period_ms in
    let rhs_class = queue_class rhs.period_ms in
    if lhs_class != rhs_class
    then ltb lhs_class rhs_class
    else if lhs.deadline_ms != rhs.deadline_ms
    then leb (2 ^ 31) (sub32 lhs.deadline_ms rhs.deadline_ms)
    else ltb (entry_can_id (entry_at pgns lhs.pgn_slot)) (entry_can_id (entry_at pgns rhs.pgn_slot))

abbrev pub no_frame : TxEntry
no_frame = record { deadline_ms = 0; period_ms = 0; payload = []; pgn_slot = 0 }

-- The loop of `prv_enqueue`: where it stops when it starts at `pos`.
unfoldable pub insert_position : List PgnEntry → TxEntry → List TxEntry → ℕ → ℕ
insert_position pgns frame queue zero = zero
insert_position pgns frame queue (suc pos) =
    let rest = insert_position pgns frame queue pos in
    if queue_before pgns frame (get_or queue pos no_frame) then rest else suc pos

-- The queue after the shifts and the write of `prv_enqueue`.
unfoldable pub insert_frame : List PgnEntry → TxEntry → List TxEntry → List TxEntry
insert_frame pgns frame queue =
    let pos = insert_position pgns frame queue (length queue) in
    take pos queue ++ frame ∷ drop pos queue

-- `prv_enqueue`
unfoldable pub enqueue : Sched → TxEntry → Bool × Sched
enqueue s frame =
    if leb tx_queue_capacity (length s.queue)
    then (false, record s { stats = record s.stats { dropped = u32 (s.stats.dropped + 1) } })
    else let count = length s.queue + 1 in
      (
        true,
        record s {
          queue = insert_frame s.pgns frame s.queue;
          stats = record s.stats {
            enqueued = u32 (s.stats.enqueued + 1);
            queued = count;
            high_water = if ltb s.stats.high_water count then count else s.stats.high_water;
          };
        },
      )

-- `prv_pop_queue_front`
unfoldable pub pop_queue_front : Sched → Sched
pop_queue_front s = record s {
  queue = drop 1 s.queue;
  stats = record s.stats { queued = length s.queue - 1 };
}
