-- ===== src/Scheduler/Slots.antt =====
-- MID/j1939_tx_scheduler.c: the slots of a PGN stay on the grid of its period.
use teep_j1939_patent.Base.{ℕ, suc, ◌+◌, ◌*◌, ◌/◌, ◌%◌, ◌^◌, ◌≤◌, ◌<◌, ◌≡◌, arith, true, false}
use teep_j1939_patent.Base.{u32, sub32, div-add-mod', mod-lt}
use teep_j1939_patent.Scheduler.{time_reached, periods_late, latest_slot_ms, next_slot_ms}

-- How an entry's slots lie around `now_ms`: the latest one not after it, and the next one.
pub record IsOnGrid (now_ms due_ms period_ms latest_ms next_ms : ℕ) : Type 0 where
  pub recent : sub32 now_ms latest_ms < period_ms
  pub ahead : time_reached now_ms next_ms ≡ false
  pub near : (1 ≤ sub32 next_ms now_ms) × (sub32 next_ms now_ms ≤ period_ms)
  pub apart : sub32 next_ms latest_ms ≡ period_ms
  pub no_drift :
      (slots : ℕ) × (u32 (due_ms + slots * period_ms) ≡ latest_ms)
      × (u32 (due_ms + suc slots * period_ms) ≡ next_ms)

-- An entry that is due at `now_ms`, with a period of 1 to 65535 ms: its frame stands for the latest
-- slot not after `now_ms`, less than a period ago; the next slot is after `now_ms`, at most a period
-- ahead and exactly a period after that one; and both lie a whole number of periods after the old
-- one, so no drift builds up (all times are 32-bit and modulo 2^32).
pub slots-IsOnGrid :
    (now_ms due_ms period_ms : ℕ)
    → now_ms < 2 ^ 32
    → due_ms < 2 ^ 32
    → 1 ≤ period_ms
    → period_ms < 2 ^ 16
    → time_reached now_ms due_ms ≡ true
    → IsOnGrid now_ms due_ms period_ms
        (latest_slot_ms now_ms due_ms period_ms)
        (next_slot_ms now_ms due_ms period_ms)
unfolding periods_late latest_slot_ms next_slot_ms
slots-IsOnGrid now_ms due_ms period_ms n d pos small reached = record {
  recent = omega arith;
  ahead = ground arith;
  near = (omega arith, omega arith);
  apart = omega arith;
  no_drift = (
    late,
    omega arith,
    (let e : suc late * period_ms ≡ late * period_ms + period_ms = grind arith in
        omega (arith, e, more)),
  );
}
  where
    age : ℕ
    age = sub32 now_ms due_ms

    late : ℕ
    late = age / period_ms

    elapsed : late * period_ms + age % period_ms ≡ age
    elapsed = div-add-mod' age period_ms

    rest : age % period_ms < period_ms
    rest = mod-lt age (omega arith)

    more : (late + 1) * period_ms ≡ late * period_ms + period_ms
    more = grind arith

    bound : age < 2 ^ 31
    bound = ground arith
