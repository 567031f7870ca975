-- ===== src/Scheduler/Runs.antt =====
-- MID/j1939_tx_scheduler.c: the variables are sound after any sequence of calls.
use teep_j1939_patent.Base.{ℕ, suc, ◌<◌, ◌≡◌, refl, sym, subst, ap, ◌∙◌, arith}
use teep_j1939_patent.Base.{
  List, [], ◌∷◌, ◌++◌, length, length-append, All, true, Bool-cases, Option-cases, inl, inr, leb,
}
use teep_j1939_patent.Catalog.{signal_at, pgn_at, catalog_pgn_count, catalog_signal_count}
use teep_j1939_patent.Catalog.WellFormed.{signal-IsWellFormed}
use teep_j1939_patent.ValueStore.{init}
use teep_j1939_patent.Tp.Invariant.{cancel-IsValid, tp_init-IsValid}
use teep_j1939_patent.Scheduler.Defs.{
  PgnEntry, TxEntry, Sched, SchedMode, sched_max_pgns, pgn_is_schedulable,
}
use teep_j1939_patent.Scheduler.Setup.{
  find_pgn, add_pgn, can_add_catalog_signal, add_catalog_signal, clear, set_mode, reset_entries,
  reset_timers,
}
use teep_j1939_patent.Scheduler.Tick.{tick}
use teep_j1939_patent.ValueStore.Isolation.{Op, apply}
use teep_j1939_patent.ValueStore.Shape.{IsShaped, apply-IsShaped}
use teep_j1939_patent.ValueStore.ReadBack.{init-IsShaped}
use teep_j1939_patent.Scheduler.Invariant.{IsSound, IsEntry, IsQueued}
use teep_j1939_patent.Scheduler.Soundness.{tick-IsSound}

clear-IsSound : (s : Sched) → IsShaped s.store → IsSound (clear s)
unfolding clear
clear-IsSound s shaped = record {
  bounded = omega arith;
  few = omega arith;
  frames = tt;
  entries = tt;
  transport = tp_init-IsValid;
  shaped = shaped;
}

All-more :
    (count : ℕ) (queue : List TxEntry)
    → All (IsQueued count) queue
    → All (IsQueued (suc count)) queue
All-more count [] h = tt
All-more count (frame ∷ rest) h = ((omega (arith, h.0.0), h.0.1), All-more count rest h.1)

All-snoc :
    (entries : List PgnEntry) (entry : PgnEntry)
    → All IsEntry entries
    → IsEntry entry
    → All IsEntry (entries ++ entry ∷ [])
All-snoc [] entry h e = (e, tt)
All-snoc (x ∷ xs) entry h e = (h.0, All-snoc xs entry h.1 e)

appended-IsSound :
    (s : Sched) (entry : PgnEntry)
    → IsSound s
    → IsEntry entry
    → length s.pgns < sched_max_pgns
    → IsSound (record s { pgns = s.pgns ++ entry ∷ [] })
appended-IsSound s entry v e room =
    let more : length (s.pgns ++ entry ∷ []) ≡ suc (length s.pgns) =
      length-append s.pgns (entry ∷ []) ∙ omega arith in
    record {
      bounded = v.bounded;
      few = omega (arith, more, room);
      frames =
          subst (λ n. All (IsQueued n) s.queue) (sym more)
            (All-more (length s.pgns) s.queue v.frames);
      entries = All-snoc s.pgns entry v.entries e;
      transport = v.transport;
      shaped = v.shaped;
    }

add_pgn-IsSound :
    (s : Sched) (pgn_index now_ms : ℕ)
    → IsSound s
    → pgn_index < catalog_pgn_count
    → pgn_is_schedulable (pgn_at pgn_index) ≡ true
    → IsSound (add_pgn s pgn_index now_ms).1
unfolding add_pgn
add_pgn-IsSound s pgn_index now_ms v known sends =
    elim (Option-cases (find_pgn s.pgns pgn_index 0)) [
      | inr (slot, e) ↦ rw (e, add_pgn) v
      | inl new ↦ elim (Bool-cases (leb sched_max_pgns (length s.pgns))) [
        | inl full ↦ rw (new, full, add_pgn) v
        | inr room ↦
            rw (new, room, add_pgn) (appended-IsSound s _ v (known, sends) (ground (arith, room)))
      ]
    ]

can_add-known :
    (s : Sched) (catalog_index : ℕ)
    → can_add_catalog_signal s catalog_index ≡ true
    → catalog_index < catalog_signal_count
unfolding can_add_catalog_signal
can_add-known s catalog_index h = ground (arith, h)

add_catalog_signal-IsSound :
    (s : Sched) (catalog_index now_ms : ℕ)
    → IsSound s
    → IsSound (add_catalog_signal s catalog_index now_ms).1
unfolding add_catalog_signal
add_catalog_signal-IsSound s catalog_index now_ms v =
    let pgn_index = (signal_at catalog_index).pgn_index in
    elim (Bool-cases (can_add_catalog_signal s catalog_index)) [
      | inr refused ↦ rw refused v
      | inl can ↦
          let w = signal-IsWellFormed catalog_index (can_add-known s catalog_index can) in
          elim (Bool-cases (pgn_is_schedulable (pgn_at pgn_index))) [
            | inr silent ↦ rw (can, silent) v
            | inl sends ↦ rw (can, sends) (add_pgn-IsSound s pgn_index now_ms v w.pgn_exists sends)
          ]
    ]

length-reset_entries :
    (all before entries : List PgnEntry) (now_ms : ℕ)
    → length (reset_entries all before entries now_ms) ≡ length entries
unfolding reset_entries
length-reset_entries all before [] now_ms = refl
length-reset_entries all before (entry ∷ entries) now_ms =
    ap suc (length-reset_entries all (before ++ entry ∷ []) entries now_ms)

reset_entries-IsEntry :
    (all before entries : List PgnEntry) (now_ms : ℕ)
    → All IsEntry entries
    → All IsEntry (reset_entries all before entries now_ms)
unfolding reset_entries
reset_entries-IsEntry all before [] now_ms h = tt
reset_entries-IsEntry all before (entry ∷ entries) now_ms h =
    (h.0, reset_entries-IsEntry all (before ++ entry ∷ []) entries now_ms h.1)

reset_timers-IsSound : (s : Sched) (now_ms : ℕ) → IsSound s → IsSound (reset_timers s now_ms)
unfolding reset_timers
reset_timers-IsSound s now_ms v = record {
  bounded = omega arith;
  few = omega (arith, length-reset_entries s.pgns [] s.pgns now_ms, v.few);
  frames = tt;
  entries = reset_entries-IsEntry s.pgns [] s.pgns now_ms v.entries;
  transport = cancel-IsValid v.transport;
  shaped = v.shaped;
}

-- A call of the scheduler that changes its variables, another clear among them, or an operation of the value store between two calls.
pub data SchedOp : Type 0 where
  op_add : (catalog_index now_ms : ℕ) → SchedOp
  op_set_mode : SchedMode → SchedOp
  op_reset : (now_ms : ℕ) → SchedOp
  op_tick : (now_ms : ℕ) → SchedOp
  op_clear : SchedOp
  op_store : Op → SchedOp

unfoldable pub sched_apply : SchedOp → Sched → Sched
sched_apply (op_add catalog_index now_ms) s = (add_catalog_signal s catalog_index now_ms).1
sched_apply (op_set_mode mode) s = set_mode s mode
sched_apply (op_reset now_ms) s = reset_timers s now_ms
sched_apply (op_tick now_ms) s = (tick s now_ms).0
sched_apply op_clear s = clear s
sched_apply (op_store op) s = record s { store = (apply op s.store).1 }

unfoldable pub sched_run : List SchedOp → Sched → Sched
sched_run [] s = s
sched_run (op ∷ ops) s = sched_run ops (sched_apply op s)

sched_apply-IsSound : (op : SchedOp) (s : Sched) → IsSound s → IsSound (sched_apply op s)
unfolding sched_apply set_mode
sched_apply-IsSound (op_add catalog_index now_ms) s v =
    add_catalog_signal-IsSound s catalog_index now_ms v
sched_apply-IsSound (op_set_mode mode) s v = record {
  bounded = v.bounded;
  few = v.few;
  frames = v.frames;
  entries = v.entries;
  transport = v.transport;
  shaped = v.shaped;
}
sched_apply-IsSound (op_reset now_ms) s v = reset_timers-IsSound s now_ms v
sched_apply-IsSound (op_tick now_ms) s v = tick-IsSound s now_ms v
sched_apply-IsSound op_clear s v = clear-IsSound s v.shaped
sched_apply-IsSound (op_store op) s v = record {
  bounded = v.bounded;
  few = v.few;
  frames = v.frames;
  entries = v.entries;
  transport = v.transport;
  shaped = apply-IsShaped op s.store v.shaped;
}

sched_run-IsSound : (ops : List SchedOp) (s : Sched) → IsSound s → IsSound (sched_run ops s)
unfolding sched_run
sched_run-IsSound [] s v = v
sched_run-IsSound (op ∷ ops) s v =
    sched_run-IsSound ops (sched_apply op s) (sched_apply-IsSound op s v)

-- After `J1939_Value_Store_Init`, `J1939_Sched_Clear` and any calls that add a signal, set the mode,
-- restart the timers, tick or clear again, or that change the value store, in any order, at any times
-- and with any answers of the bus: at most 32 frames are queued, each of 8 bytes
-- and with the slot of an entry; at most 60 entries are scheduled, each a PGN of the catalog that
-- transmits by itself; the transport is valid, and the store's arrays have their sizes.
pub sched_run-clear-IsSound :
    (ops : List SchedOp) (s : Sched) → IsSound (sched_run ops (clear (record s { store = init })))
sched_run-clear-IsSound ops s =
    sched_run-IsSound ops (clear (record s { store = init }))
      (clear-IsSound (record s { store = init }) init-IsShaped)
