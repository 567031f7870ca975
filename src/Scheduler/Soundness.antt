-- ===== src/Scheduler/Soundness.antt =====
-- MID/j1939_tx_scheduler.c: a tick keeps the scheduler's variables sound.
use teep_j1939_patent.Base.{ℕ, zero, suc, ◌+◌, ◌≤◌, ◌<◌, ◌≡◌, refl, sym, subst, ◌∙◌, arith}
use teep_j1939_patent.Base.{
  List, [], ◌∷◌, length, drop, set, length-set, All, not, u32, ◌||◌, ◌&&◌, ◌⊎◌, length-drop, ◌==◌,
  Bool-cases, inl, inr, if◌then◌else◌, ltb,
}
use teep_j1939_patent.Tp.{process}
use teep_j1939_patent.Link.{send, send_to, link_status}
use teep_j1939_patent.HalCan.{send_ext}
use teep_j1939_patent.ValueStore.Shape.{IsShaped}
use teep_j1939_patent.Tp.Invariant.{IsValid, process-IsValid}
use teep_j1939_patent.Scheduler.Defs.{
  TxEntry, Sched, SchedStats, TickResult, entry_at, catalog_pgn, entry_period_ms, time_reached,
  pgn_needs_tp,
}
use teep_j1939_patent.Scheduler.Queue.{pop_queue_front}
use teep_j1939_patent.Scheduler.Tick.{
  start_pending, run_due_entry, run_due, drain_step, drain_loop, drain_queue, tick, pause_queue,
  no_result, periods_late, latest_slot_ms, next_slot_ms,
}
use teep_j1939_patent.Scheduler.Invariant.{
  IsSound, IsEntry, IsQueued, Keeps, schedule_due_pgn-Keeps, start_pending-Keeps, All-drop,
  start_tp_pgn-IsSound, length-start_tp_pgn, set_entry-IsSound, entry_at-IsEntry,
}

with_stats-IsSound :
    (s : Sched) (stats : SchedStats) → IsSound s → IsSound (record s { stats = stats })
with_stats-IsSound s stats v = record {
  bounded = v.bounded;
  few = v.few;
  frames = v.frames;
  entries = v.entries;
  transport = v.transport;
  shaped = v.shaped;
}

-- The entry moved to its next slot, and the counter.
moved-IsSound :
    (s : Sched) (i next_ms : ℕ) (stats : SchedStats)
    → IsSound s
    → i < length s.pgns
    → Keeps s (record s {
      pgns = set s.pgns i (record (entry_at s.pgns i) { next_due_ms = next_ms });
      stats = stats;
    })
moved-IsSound s i next_ms stats v lt =
    let entry = record (entry_at s.pgns i) { next_due_ms = next_ms } in
    (
      with_stats-IsSound (record s { pgns = set s.pgns i entry }) stats
          (set_entry-IsSound s i entry v (entry_at-IsEntry s.pgns i v.entries lt)),
      length-set s.pgns i entry,
    )

run_due_entry-Keeps :
    (now_ms i : ℕ) (s : Sched) (result : TickResult)
    → IsSound s
    → i < length s.pgns
    → Keeps s (run_due_entry now_ms i (s, result)).0
unfolding run_due_entry
run_due_entry-Keeps now_ms i s result v lt =
    let entry = entry_at s.pgns i in
    let period_ms = entry_period_ms entry in
    let late = periods_late now_ms entry.next_due_ms period_ms in
    let stats =
      if ltb 0 late
      then record s.stats { deadline_missed = u32 (s.stats.deadline_missed + late) }
      else s.stats in
    let next_ms = next_slot_ms now_ms entry.next_due_ms period_ms in
    let s' = record s {
      pgns = set s.pgns i (record entry { next_due_ms = next_ms });
      stats = stats;
    } in
    let (sound, same) = moved-IsSound s i next_ms stats v lt in
    let lt' : i < length s'.pgns = omega (arith, same, lt) in
    elim (Bool-cases ((period_ms == 0) || not (time_reached now_ms entry.next_due_ms))) [
      | inl early ↦ rw early (v, refl)
      | inr due ↦ elim (Bool-cases (pgn_needs_tp (catalog_pgn entry))) [
        | inl long ↦
            rw (due, long)
              (start_tp_pgn-IsSound s' i now_ms sound lt', length-start_tp_pgn s' i now_ms ∙ same)
        | inr short ↦
            let (queued, count) =
              schedule_due_pgn-Keeps s' _ i period_ms
                (latest_slot_ms now_ms entry.next_due_ms period_ms) sound lt' in
            rw (due, short) (queued, count ∙ same)
      ]
    ]

run_due-Keeps :
    (now_ms left i : ℕ) (s : Sched) (result : TickResult)
    → IsSound s
    → i + left ≤ length s.pgns
    → Keeps s (run_due now_ms left i (s, result)).0
unfolding run_due
run_due-Keeps now_ms zero i s result v fits = (v, refl)
run_due-Keeps now_ms (suc left) i s result v fits =
    let after = run_due_entry now_ms i (s, result) in
    let (sound, same) = run_due_entry-Keeps now_ms i s result v (omega arith) in
    let (later, count) =
      run_due-Keeps now_ms left (i + 1) after.0 after.1 sound (omega (arith, same, fits)) in
    (later, count ∙ same)

popped-IsSound :
    (s : Sched) (t : Sched)
    → IsSound s
    → t.queue ≡ drop 1 s.queue
    → t.pgns ≡ s.pgns
    → t.tp ≡ s.tp
    → t.store ≡ s.store
    → IsSound t
popped-IsSound s t v queue pgns tp store = record {
  bounded = ground (arith, queue, length-drop 1 s.queue, v.bounded);
  few = ground (arith, pgns, v.few);
  frames =
      subst (λ q. All (IsQueued (length t.pgns)) q) (sym queue)
        (subst (λ ps. All (IsQueued (length ps)) (drop 1 s.queue)) (sym pgns)
          (All-drop (length s.pgns) s.queue v.frames));
  entries = subst (All IsEntry) (sym pgns) v.entries;
  transport = subst IsValid (sym tp) v.transport;
  shaped = subst IsShaped (sym store) v.shaped;
}

paused-IsSound :
    (s : Sched) (t : Sched)
    → IsSound s
    → t.queue ≡ s.queue
    → t.pgns ≡ s.pgns
    → t.tp ≡ s.tp
    → t.store ≡ s.store
    → IsSound t
paused-IsSound s t v queue pgns tp store = record {
  bounded = ground (arith, queue, v.bounded);
  few = ground (arith, pgns, v.few);
  frames =
      subst (λ q. All (IsQueued (length t.pgns)) q) (sym queue)
        (subst (λ ps. All (IsQueued (length ps)) s.queue) (sym pgns) v.frames);
  entries = subst (All IsEntry) (sym pgns) v.entries;
  transport = subst IsValid (sym tp) v.transport;
  shaped = subst IsShaped (sym store) v.shaped;
}

drain_step-frame :
    (s : Sched) (result : TickResult) (now_ms : ℕ) (frame : TxEntry)
    → let t = (drain_step s result now_ms frame).1.0 in
      ((t.queue ≡ drop 1 s.queue) ⊎ (t.queue ≡ s.queue))
      × (t.pgns ≡ s.pgns)
      × (t.tp ≡ s.tp)
      × (t.store ≡ s.store)
unfolding drain_step pause_queue pop_queue_front send send_to send_ext link_status
drain_step-frame s result now_ms frame = ground arith

drain_step-IsSound :
    (s : Sched) (result : TickResult) (now_ms : ℕ) (frame : TxEntry)
    → IsSound s
    → IsSound (drain_step s result now_ms frame).1.0
drain_step-IsSound s result now_ms frame v =
    let t = (drain_step s result now_ms frame).1.0 in
    let (queue, pgns, tp, store) = drain_step-frame s result now_ms frame in
    elim queue [
      | inl popped ↦ popped-IsSound s t v popped pgns tp store
      | inr kept ↦ paused-IsSound s t v kept pgns tp store
    ]

drain_loop-IsSound :
    (frames : List TxEntry) (s : Sched) (result : TickResult) (now_ms : ℕ)
    → IsSound s
    → IsSound (drain_loop frames s result now_ms).0
unfolding drain_loop
drain_loop-IsSound [] s result now_ms v = v
drain_loop-IsSound (frame ∷ frames) s result now_ms v =
    let after = drain_step s result now_ms frame in
    let sound = drain_step-IsSound s result now_ms frame v in
    elim (Bool-cases after.0) [
      | inl goes_on ↦
          rw (goes_on, drain_loop) (drain_loop-IsSound frames after.1.0 after.1.1 now_ms sound)
      | inr stops ↦ rw (stops, drain_loop) sound
    ]

drain_queue-IsSound :
    (s : Sched) (result : TickResult) (now_ms : ℕ)
    → IsSound s
    → IsSound (drain_queue s result now_ms).0
unfolding drain_queue
drain_queue-IsSound s result now_ms v =
    elim (Bool-cases (ltb 0 (length s.queue) && not (time_reached now_ms s.retry_not_before_ms))) [
      | inl waits ↦ rw waits v
      | inr goes ↦ rw goes (drain_loop-IsSound s.queue s result now_ms v)
    ]

processed-IsSound :
    (s : Sched) (now_ms : ℕ)
    → IsSound s
    → let (tp', can') = process s.tp now_ms s.can in IsSound (record s { tp = tp'; can = can' })
processed-IsSound s now_ms v = record {
  bounded = v.bounded;
  few = v.few;
  frames = v.frames;
  entries = v.entries;
  transport = process-IsValid now_ms s.can v.transport;
  shaped = v.shaped;
}

-- A tick at any time, whatever is due and whatever the bus answers, keeps the scheduler sound: at
-- most 32 queued frames, each of 8 bytes and with the slot of an entry; at most 60 entries, each a
-- PGN of the catalog that transmits by itself; a valid transport; and a store whose arrays have their sizes.
pub tick-IsSound : (s : Sched) (now_ms : ℕ) → IsSound s → IsSound (tick s now_ms).0
unfolding tick
tick-IsSound s now_ms v =
    let pending = start_pending (length s.pgns) 0 s now_ms in
    let (started, same) = start_pending-Keeps (length s.pgns) 0 s now_ms v (omega arith) in
    let due = run_due now_ms (length pending.pgns) 0 (pending, no_result) in
    let (queued, count) =
      run_due-Keeps now_ms (length pending.pgns) 0 pending no_result started (omega arith) in
    let drained = drain_queue due.0 due.1 now_ms in
    processed-IsSound drained.0 now_ms (drain_queue-IsSound due.0 due.1 now_ms queued)
