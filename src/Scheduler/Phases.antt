-- ===== src/Scheduler/Phases.antt =====
-- MID/j1939_tx_scheduler.c: what restarting the timers does to the entries.
use teep_j1939_patent.Base.{
  ◌≢◌, u32, map, subst, ℕ, ◌+◌, ◌-◌, ◌*◌, ◌^◌, ◌≤◌, ◌<◌, ◌≡◌, refl, ap, sym, ◌∙◌, arith,
}
use teep_j1939_patent.Base.{
  List, [], ◌∷◌, ◌++◌, ◌⊎◌, inl, inr, All, length, false, sub32, append_assoc,
}
use teep_j1939_patent.Tp.{is_busy, cancel}
use teep_j1939_patent.Scheduler.{
  PgnEntry, Sched, entry_period_ms, same_period_count, phase_ms, reset_entries, reset_timers,
}
use teep_j1939_patent.Scheduler.Shares.{
  HasPeriod, phase_of, apart, same_period_count-append, same_or_not, counts_itself, place,
}

-- An entry that is due after `now_ms`, within its period.
abbrev pub IsDueSoon : ℕ → PgnEntry → Type 0
IsDueSoon now_ms entry =
    (1 ≤ sub32 entry.next_due_ms now_ms)
    × (sub32 entry.next_due_ms now_ms ≤ entry_period_ms entry)
    × (entry.tp_pending ≡ false)

-- How long after `now_ms` an entry is due
abbrev pub due_in : PgnEntry → ℕ → ℕ
due_in entry now_ms = sub32 entry.next_due_ms now_ms

-- Two entries, the second behind the first: they have different periods, or the second is due after
-- the first by more than the period's part for one of the entries that share it, less one
-- millisecond.
abbrev pub IsApart : List PgnEntry → ℕ → PgnEntry → PgnEntry → Type 0
IsApart all now_ms e f =
    (entry_period_ms e ≢ entry_period_ms f)
    ⊎ ((due_in e now_ms ≤ due_in f now_ms)
        × (entry_period_ms e
            < (due_in f now_ms - due_in e now_ms + 1) * same_period_count all (entry_period_ms e)))

-- Every two entries are apart.
abbrev pub AreSpread : List PgnEntry → ℕ → List PgnEntry → Type 0
AreSpread all now_ms [] = Unit
AreSpread all now_ms (e ∷ es) = All (IsApart all now_ms e) es × AreSpread all now_ms es

reset_entries-IsDueSoon :
    (all before entries : List PgnEntry) (now_ms : ℕ)
    → all ≡ before ++ entries
    → length all ≤ 60
    → now_ms < 2 ^ 32
    → All HasPeriod entries
    → All (IsDueSoon now_ms) (reset_entries all before entries now_ms)
unfolding reset_entries
reset_entries-IsDueSoon all before [] now_ms parts few n h = tt
reset_entries-IsDueSoon all before (entry ∷ entries) now_ms parts few n h =
    let bounds = (place all before entry entries parts few h.0).bounds in
    (
      (omega (arith, bounds), omega (arith, bounds), refl),
      reset_entries-IsDueSoon all (before ++ entry ∷ []) entries now_ms
          (parts ∙ sym (append_assoc before (entry ∷ []) entries)) few n h.1,
    )

-- The entries behind one with the share `low + 1` are apart from it.
reset_entries-Apart :
    (all before entries : List PgnEntry) (now_ms low : ℕ) (e : PgnEntry)
    → all ≡ before ++ entries
    → length all ≤ 60
    → now_ms < 2 ^ 32
    → All HasPeriod entries
    → low < same_period_count before (entry_period_ms e)
    → due_in e now_ms * same_period_count all (entry_period_ms e)
      < (low + 1) * entry_period_ms e + same_period_count all (entry_period_ms e)
    → All (IsApart all now_ms e) (reset_entries all before entries now_ms)
unfolding reset_entries
reset_entries-Apart all before [] now_ms low e parts few n h rank share = tt
reset_entries-Apart all before (entry ∷ entries) now_ms low e parts few n h rank share =
    let period_ms = entry_period_ms entry in
    let high = same_period_count before period_ms in
    let peers = same_period_count all period_ms in
    let placed = place all before entry entries parts few h.0 in
    let ahead = same_period_count-append before (entry ∷ []) (entry_period_ms e) in
    (
      elim (same_or_not (entry_period_ms e) period_ms) [
        | inr other ↦ inl other
        | inl same ↦
            let due : sub32 (u32 (now_ms + phase_ms high peers period_ms)) now_ms
                ≡ phase_ms high peers period_ms =
              omega (arith, placed.bounds, h.0) in
            let behind : low < high = subst (λ p. low < same_period_count before p) same rank in
            let earlier : due_in e now_ms * peers < (low + 1) * period_ms + peers =
              subst
                (λ p.
                  due_in e now_ms * same_period_count all p
                  < (low + 1) * p + same_period_count all p)
                same share in
            let gap =
              apart period_ms peers low high (due_in e now_ms) (phase_of all before entry) h.0.0
                behind earlier placed.share.0 in
            inr (rw (due, same) gap)
      ],
      reset_entries-Apart all (before ++ entry ∷ []) entries now_ms low e
          (parts ∙ sym (append_assoc before (entry ∷ []) entries)) few n h.1
          (omega (arith, ahead, rank)) share,
    )

reset_entries-AreSpread :
    (all before entries : List PgnEntry) (now_ms : ℕ)
    → all ≡ before ++ entries
    → length all ≤ 60
    → now_ms < 2 ^ 32
    → All HasPeriod entries
    → AreSpread all now_ms (reset_entries all before entries now_ms)
unfolding reset_entries
reset_entries-AreSpread all before [] now_ms parts few n h = tt
reset_entries-AreSpread all before (entry ∷ entries) now_ms parts few n h =
    let period_ms = entry_period_ms entry in
    let placed = place all before entry entries parts few h.0 in
    let phase = phase_of all before entry in
    let reset : PgnEntry = record entry {
      next_due_ms = u32 (now_ms + phase);
      tp_pending = false;
    } in
    let due : due_in reset now_ms ≡ phase = omega (arith, placed.bounds, h.0) in
    let own : same_period_count (entry ∷ []) period_ms ≡ 1 = counts_itself entry in
    let next = parts ∙ sym (append_assoc before (entry ∷ []) entries) in
    (
      reset_entries-Apart all (before ++ entry ∷ []) entries now_ms
          (same_period_count before period_ms) reset next few n h.1
          (omega (arith, same_period_count-append before (entry ∷ []) period_ms, own))
          (rw due placed.share.1),
      reset_entries-AreSpread all (before ++ entry ∷ []) entries now_ms next few n h.1,
    )

reset_entries-pgns :
    (all before entries : List PgnEntry) (now_ms : ℕ)
    → map (λ (e : PgnEntry). e.catalog_pgn_index) (reset_entries all before entries now_ms)
      ≡ map (λ (e : PgnEntry). e.catalog_pgn_index) entries
unfolding reset_entries
reset_entries-pgns all before [] now_ms = refl
reset_entries-pgns all before (entry ∷ entries) now_ms =
    ap (λ ks. entry.catalog_pgn_index ∷ ks)
      (reset_entries-pgns all (before ++ entry ∷ []) entries now_ms)

-- Restarting the timers at `now_ms`, with at most 60 entries of periods from 1 to 65535 ms, empties
-- the queue, leaves no broadcast session running, keeps the PGNs and their order, and makes each
-- entry due within one of its periods after `now_ms`, none at once and none pending. It spreads the
-- entries of one period over it: of two of them the later is due after the earlier by more than the
-- period divided by the number of the entries that share it, less one millisecond.
pub reset_timers-IsDueSoon :
    (s : Sched) (now_ms : ℕ)
    → length s.pgns ≤ 60
    → now_ms < 2 ^ 32
    → All HasPeriod s.pgns
    → let t = reset_timers s now_ms in
      All (IsDueSoon now_ms) t.pgns
      × AreSpread s.pgns now_ms t.pgns
      × (map (λ (e : PgnEntry). e.catalog_pgn_index) t.pgns
          ≡ map (λ (e : PgnEntry). e.catalog_pgn_index) s.pgns)
      × (t.queue ≡ [])
      × (is_busy t.tp ≡ false)
unfolding reset_timers is_busy cancel
reset_timers-IsDueSoon s now_ms few n h = (
  reset_entries-IsDueSoon s.pgns [] s.pgns now_ms refl few n h,
  reset_entries-AreSpread s.pgns [] s.pgns now_ms refl few n h,
  reset_entries-pgns s.pgns [] s.pgns now_ms,
  refl,
  refl,
)
