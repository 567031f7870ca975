-- ===== src/Scheduler/Setup.antt =====
-- MID/j1939_tx_scheduler.c: which PGNs are scheduled, and the start of their timers.
use teep_j1939_patent.Base.{
  ℕ, zero, suc, ◌+◌, ◌-◌, ◌*◌, ◌/◌, List, [], ◌∷◌, ◌++◌, Bool, true, false, not, ◌&&◌, ◌||◌,
}
use teep_j1939_patent.Base.{Option, none, some, length, ltb, leb, ◌==◌, if◌then◌else◌, u32}
use teep_j1939_patent.Catalog.{catalog_signal_count, catalog_pgn_count, signal_at, pgn_at}
use teep_j1939_patent.Tp.{tp_init, cancel}
use teep_j1939_patent.ValueStore.{is_active}
use teep_j1939_patent.Scheduler.Defs.{
  PgnEntry, Sched, SchedMode, entry_period_ms, pgn_is_schedulable, sched_max_pgns,
  profile_signal_capacity,
}

-- `prv_signal_is_active` of the default build
abbrev pub signal_is_active : Sched → ℕ → Bool
signal_is_active s catalog_index = is_active s.store catalog_index

-- `prv_find_pgn`: the slot of the entry, counted from `slot` on.
unfoldable pub find_pgn : List PgnEntry → ℕ → ℕ → Option ℕ
find_pgn [] catalog_pgn_index slot = none
find_pgn (entry ∷ entries) catalog_pgn_index slot =
    let rest = find_pgn entries catalog_pgn_index (slot + 1) in
    if entry.catalog_pgn_index == catalog_pgn_index then some slot else rest

-- `prv_add_pgn`
unfoldable pub add_pgn : Sched → ℕ → ℕ → Option ℕ × Sched
add_pgn s catalog_pgn_index now_ms = elim (find_pgn s.pgns catalog_pgn_index 0) [
  | some slot ↦ (some slot, s)
  | none ↦
      if leb sched_max_pgns (length s.pgns)
      then (none, s)
      else let entry : PgnEntry = record {
        next_due_ms = u32 (now_ms + (pgn_at catalog_pgn_index).period_ms);
        catalog_pgn_index = catalog_pgn_index;
        tp_pending = false;
      } in
        (some (length s.pgns), record s { pgns = s.pgns ++ entry ∷ [] })
]

-- `J1939_Sched_Pgn_Is_Schedulable`
unfoldable pub pgn_index_is_schedulable : ℕ → Bool
pgn_index_is_schedulable catalog_pgn_index =
    ltb catalog_pgn_index catalog_pgn_count && pgn_is_schedulable (pgn_at catalog_pgn_index)

-- The loop of `J1939_Sched_Get_Signal_Count`: `left` signals from `i` on.
unfoldable pub count_signals : Sched → ℕ → ℕ → ℕ → ℕ
count_signals s zero i count = count
count_signals s (suc left) i count =
    count_signals s left (i + 1) (if signal_is_active s i then count + 1 else count)

-- `J1939_Sched_Get_Signal_Count`
unfoldable pub get_signal_count : Sched → ℕ
get_signal_count s = count_signals s catalog_signal_count 0 0

-- `J1939_Sched_Can_Add_Catalog_Signal`
unfoldable pub can_add_catalog_signal : Sched → ℕ → Bool
can_add_catalog_signal s catalog_index =
    let pgn_index = (signal_at catalog_index).pgn_index in
    if leb catalog_signal_count catalog_index
      || (not (signal_is_active s catalog_index)
          && leb profile_signal_capacity (get_signal_count s))
    then false
    else if not (pgn_is_schedulable (pgn_at pgn_index))
    then true
    else elim (find_pgn s.pgns pgn_index 0) [
      | some slot ↦ true
      | none ↦ ltb (length s.pgns) sched_max_pgns
    ]

-- `J1939_Sched_Add_Catalog_Signal`, which ignores its `timeframe_ms`
unfoldable pub add_catalog_signal : Sched → ℕ → ℕ → Bool × Sched
add_catalog_signal s catalog_index now_ms =
    let pgn_index = (signal_at catalog_index).pgn_index in
    let (slot, s') = add_pgn s pgn_index now_ms in
    if not (can_add_catalog_signal s catalog_index)
    then (false, s)
    else if not (pgn_is_schedulable (pgn_at pgn_index))
    then (true, s)
    else (elim slot [ none ↦ false | some _ ↦ true ], s')

-- `J1939_Sched_Clear`
unfoldable pub clear : Sched → Sched
clear s = record s {
  pgns = [];
  queue = [];
  retry_not_before_ms = 0;
  stats = record {
    enqueued = 0;
    sent = 0;
    busy = 0;
    failed = 0;
    dropped = 0;
    deadline_missed = 0;
    expired = 0;
    queued = 0;
    high_water = 0;
  };
  tp = tp_init;
}

-- `J1939_Sched_Set_Mode`
unfoldable pub set_mode : Sched → SchedMode → Sched
set_mode s mode = record s { mode = mode }

-- `rank` and `peers` of `J1939_Sched_Reset_Timers`: the entries with a period, before `i` and in
-- all.
unfoldable pub same_period_count : List PgnEntry → ℕ → ℕ
same_period_count [] period_ms = 0
same_period_count (entry ∷ entries) period_ms =
    (if entry_period_ms entry == period_ms then 1 else 0) + same_period_count entries period_ms

-- `phase`
unfoldable pub phase_ms : ℕ → ℕ → ℕ → ℕ
phase_ms rank peers period_ms = u32 (u32 ((rank + 1) * period_ms) + peers - 1) / peers

-- The loop of `J1939_Sched_Reset_Timers` over the entries after `before`.
unfoldable pub reset_entries : List PgnEntry → List PgnEntry → List PgnEntry → ℕ → List PgnEntry
reset_entries all before [] now_ms = []
reset_entries all before (entry ∷ entries) now_ms =
    let period_ms = entry_period_ms entry in
    let phase =
      phase_ms (same_period_count before period_ms) (same_period_count all period_ms) period_ms in
    record entry { next_due_ms = u32 (now_ms + phase); tp_pending = false }
    ∷ reset_entries all (before ++ entry ∷ []) entries now_ms

-- `J1939_Sched_Reset_Timers`
unfoldable pub reset_timers : Sched → ℕ → Sched
reset_timers s now_ms = record s {
  pgns = reset_entries s.pgns [] s.pgns now_ms;
  queue = [];
  retry_not_before_ms = now_ms;
  stats = record s.stats { queued = 0 };
  tp = cancel s.tp;
}

-- The loop of `J1939_Sched_Get_Active_Catalog_Index`: `left` signals from `i` on.
unfoldable pub find_active : Sched → ℕ → ℕ → ℕ → Option ℕ
find_active s zero i ordinal = none
find_active s (suc left) i ordinal =
    let here = signal_is_active s i in
    let rest = find_active s left (i + 1) (if here then ordinal - 1 else ordinal) in
    if here && (ordinal == 0) then some i else rest

-- `J1939_Sched_Get_Active_Catalog_Index`
unfoldable pub get_active_catalog_index : Sched → ℕ → Option ℕ
get_active_catalog_index s ordinal = find_active s catalog_signal_count 0 ordinal
