-- ===== src/Scheduler/Defs.antt =====
-- MID/j1939_tx_scheduler.{h,c}: the state, and what is read from one entry.
use teep_j1939_patent.Base.{ℕ, ◌^◌, List, Bool, false, ◌&&◌, ◌||◌, ltb, leb, ◌!=◌}
use teep_j1939_patent.Base.{get_or, sub32, bit_and}
use teep_j1939_patent.Frame.{addr_global, build_id}
use teep_j1939_patent.Catalog.{CatalogPgn, pgn_at, pgn_requires_tp}
use teep_j1939_patent.HalCan.{Can}
use teep_j1939_patent.Tp.{Tp, tp_max_payload_bytes}
use teep_j1939_patent.ValueStore.{Store}

abbrev pub tx_queue_capacity : ℕ
tx_queue_capacity = 32

-- `J1939_SCHED_MAX_PGNS` and `J1939_PROFILE_SIGNAL_CAPACITY` of the default build
abbrev pub sched_max_pgns : ℕ
sched_max_pgns = 60

abbrev pub profile_signal_capacity : ℕ
profile_signal_capacity = 179

-- `J1939_Sched_Mode_t`
pub data SchedMode : Type 0 where
  mode_smooth mode_sae mode_stress : SchedMode

-- `Sched_PGN_Entry_t`
pub record PgnEntry : Type 0 where
  pub next_due_ms : ℕ
  pub catalog_pgn_index : ℕ
  pub tp_pending : Bool

-- `Sched_Tx_Entry_t` without the index that only the debug variables use
pub record TxEntry : Type 0 where
  pub deadline_ms : ℕ
  pub period_ms : ℕ
  pub payload : List ℕ
  pub pgn_slot : ℕ

-- `J1939_Sched_Stats_t`; `queued` is the length of the queue.
pub record SchedStats : Type 0 where
  pub enqueued : ℕ
  pub sent : ℕ
  pub busy : ℕ
  pub failed : ℕ
  pub dropped : ℕ
  pub deadline_missed : ℕ
  pub expired : ℕ
  pub queued : ℕ
  pub high_water : ℕ

-- The scheduler's globals, and the transport, the controller and the store it works on.
pub record Sched : Type 0 where
  pub pgns : List PgnEntry
  pub queue : List TxEntry
  pub retry_not_before_ms : ℕ
  pub stats : SchedStats
  pub mode : SchedMode
  pub tx_seq : ℕ
  pub tp : Tp
  pub can : Can
  pub store : Store

-- `prv_time_reached`
abbrev pub time_reached : ℕ → ℕ → Bool
time_reached now_ms deadline_ms = ltb (sub32 now_ms deadline_ms) (2 ^ 31)

abbrev pub no_entry : PgnEntry
no_entry = record { next_due_ms = 0; catalog_pgn_index = 0; tp_pending = false }

-- `s_pgns[slot]`
abbrev pub entry_at : List PgnEntry → ℕ → PgnEntry
entry_at pgns slot = get_or pgns slot no_entry

-- `prv_catalog_pgn`
abbrev pub catalog_pgn : PgnEntry → CatalogPgn
catalog_pgn entry = pgn_at entry.catalog_pgn_index

-- `prv_period_ms`
abbrev pub entry_period_ms : PgnEntry → ℕ
entry_period_ms entry = (catalog_pgn entry).period_ms

-- `prv_pgn_needs_tp`
unfoldable pub pgn_needs_tp : CatalogPgn → Bool
pgn_needs_tp pgn = ltb 8 pgn.payload_length || (bit_and pgn.flags pgn_requires_tp != 0)

-- `prv_pgn_is_schedulable`
unfoldable pub pgn_is_schedulable : CatalogPgn → Bool
pgn_is_schedulable pgn = ltb 0 pgn.period_ms && leb pgn.payload_length tp_max_payload_bytes

-- `prv_can_id`
unfoldable pub entry_can_id : PgnEntry → ℕ
entry_can_id entry =
    let pgn = catalog_pgn entry in
    build_id (record {
      pgn = pgn.pgn;
      priority = pgn.priority;
      source_address = pgn.source_address;
      destination_address = addr_global;
    })

-- `J1939_Sched_Tick_Result_t`
pub record TickResult : Type 0 where
  pub enqueued : ℕ
  pub sent : ℕ
  pub busy : ℕ
  pub failed : ℕ
  pub dropped : ℕ
  pub deadline_missed : ℕ
  pub expired : ℕ
