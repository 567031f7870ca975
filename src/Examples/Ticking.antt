-- ===== src/Examples/Ticking.antt =====
-- MID/j1939_tx_scheduler.c: the queue, the slots and the timers at concrete inputs.
use teep_j1939_patent.Base.{
  map, ℕ, ◌≡◌, refl, arith, List, [], ◌∷◌, replicate, true, false, All, inr,
}
use teep_j1939_patent.Catalog.{pgn_at, catalog_pgns}
use teep_j1939_patent.Tp.{tp_init, is_busy}
use teep_j1939_patent.ValueStore.{init}
use teep_j1939_patent.Scheduler.{
  PgnEntry, TxEntry, Sched, mode_smooth, no_result, enqueue, drain_queue, reset_timers,
  latest_slot_ms, next_slot_ms,
}
use teep_j1939_patent.Scheduler.{clear}
use teep_j1939_patent.ValueStore.{begin_empty}
use teep_j1939_patent.ValueStore.Isolation.{op_begin, op_set_raw, op_commit}
use teep_j1939_patent.Scheduler.Invariant.{IsSound}
use teep_j1939_patent.Scheduler.Runs.{
  SchedOp, op_add, op_tick, op_reset, op_clear, op_store, sched_run, sched_run-clear-IsSound,
}
use teep_j1939_patent.Scheduler.Slots.{IsOnGrid, slots-IsOnGrid}
use teep_j1939_patent.Scheduler.Order.{IsEnqueued, enqueue-IsEnqueued}
use teep_j1939_patent.Scheduler.Drain.{IsDrained, drain_queue-IsDrained}
use teep_j1939_patent.Scheduler.Shares.{HasPeriod}
use teep_j1939_patent.Scheduler.Phases.{IsDueSoon, AreSpread, reset_timers-IsDueSoon}

-- Late by three periods of 20 ms.
slots-IsOnGrid_example :
    IsOnGrid 1000 935 20 (latest_slot_ms 1000 935 20) (next_slot_ms 1000 935 20)
slots-IsOnGrid_example =
    slots-IsOnGrid 1000 935 20 (omega arith) (omega arith) (omega arith) (omega arith) refl

-- EEC1 and ETC1 at their slots.
abbrev eec1_entry : PgnEntry
eec1_entry = record { next_due_ms = 1020; catalog_pgn_index = 6; tp_pending = false }

abbrev etc1_entry : PgnEntry
etc1_entry = record { next_due_ms = 1010; catalog_pgn_index = 4; tp_pending = false }

abbrev frame_at : ℕ → ℕ → ℕ → TxEntry
frame_at deadline_ms period_ms pgn_slot = record {
  deadline_ms = deadline_ms;
  period_ms = period_ms;
  payload = replicate 8 0xff;
  pgn_slot = pgn_slot;
}

abbrev sched : Sched
sched = record {
  pgns = eec1_entry ∷ etc1_entry ∷ [];
  queue = frame_at 1000 20 0 ∷ [];
  retry_not_before_ms = 900;
  stats = record {
    enqueued = 1;
    sent = 0;
    busy = 0;
    failed = 0;
    dropped = 0;
    deadline_missed = 0;
    expired = 0;
    queued = 1;
    high_water = 1;
  };
  mode = mode_smooth;
  tx_seq = 0;
  tp = tp_init;
  can = record { started = true; mailbox_free = true ∷ []; sent = []; fifo = [] };
  store = init;
}

enqueue-IsEnqueued_example :
    IsEnqueued sched (frame_at 990 10 1) (enqueue sched (frame_at 990 10 1))
enqueue-IsEnqueued_example =
    enqueue-IsEnqueued sched (frame_at 990 10 1) ((omega arith, omega arith, omega arith), tt)
      (tt, tt) (omega arith)

drain_queue-IsDrained_example :
    (popped : List TxEntry) × IsDrained sched 1001 (drain_queue sched no_result 1001).0 popped
drain_queue-IsDrained_example = drain_queue-IsDrained sched no_result 1001 (inr refl)

-- Three PGNs of 1000 ms and EEC1 between them
abbrev sharing : Sched
sharing = record sched {
  pgns =
      record eec1_entry { catalog_pgn_index = 1 }
      ∷ eec1_entry
      ∷ record eec1_entry { catalog_pgn_index = 11 }
      ∷ record eec1_entry { catalog_pgn_index = 13 }
      ∷ [];
}

periods : All HasPeriod sharing.pgns
unfolding pgn_at catalog_pgns
periods = (
  (omega arith, omega arith),
  ((omega arith, omega arith), ((omega arith, omega arith), ((omega arith, omega arith), tt))),
)

reset_timers-IsDueSoon_example :
    All (IsDueSoon 5000) (reset_timers sharing 5000).pgns
    × AreSpread sharing.pgns 5000 (reset_timers sharing 5000).pgns
    × (map (λ (e : PgnEntry). e.catalog_pgn_index) (reset_timers sharing 5000).pgns
        ≡ map (λ (e : PgnEntry). e.catalog_pgn_index) sharing.pgns)
    × ((reset_timers sharing 5000).queue ≡ [])
    × (is_busy (reset_timers sharing 5000).tp ≡ false)
reset_timers-IsDueSoon_example =
    reset_timers-IsDueSoon sharing 5000 (omega arith) (omega arith) periods

-- A value, an entry for a signal, ticks, a restart of the timers and a clear.
abbrev calls : List SchedOp
calls =
    op_store (op_begin begin_empty)
    ∷ op_store (op_set_raw 1 7)
    ∷ op_store op_commit
    ∷ op_add 99 0
    ∷ op_tick 10
    ∷ op_reset 15
    ∷ op_tick 40
    ∷ op_clear
    ∷ op_tick 60
    ∷ []

sched_run-clear-IsSound_example : IsSound (sched_run calls (clear (record sched { store = init })))
sched_run-clear-IsSound_example = sched_run-clear-IsSound calls sched
