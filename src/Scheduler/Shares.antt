-- ===== src/Scheduler/Shares.antt =====
-- MID/j1939_tx_scheduler.c: the part of its period after which a restart makes an entry due.
use teep_j1939_patent.Base.{
  ◌≢◌, Bool-cases, ◌==◌, ℕ, ◌+◌, ◌-◌, ◌*◌, ◌%◌, ◌^◌, ◌≤◌, ◌<◌, ◌≡◌, ap, ◌∙◌, arith,
}
use teep_j1939_patent.Base.{List, [], ◌∷◌, ◌++◌, ◌⊎◌, inl, inr, length}
use native.Mathlib.Nat.{
  mul-le-mul_right, le-div_iff_mul-le, div-lt_iff_lt-mul, div-add-mod', mod-lt,
}
use teep_j1939_patent.Scheduler.{PgnEntry, entry_period_ms, same_period_count, phase_ms}

-- Every scheduled entry has a period, one that the catalog's 16 bits hold.
abbrev pub HasPeriod : PgnEntry → Type 0
HasPeriod entry = (1 ≤ entry_period_ms entry) × (entry_period_ms entry < 2 ^ 16)

-- The phase that an entry gets
abbrev pub phase_of : List PgnEntry → List PgnEntry → PgnEntry → ℕ
phase_of all before entry =
    phase_ms (same_period_count before (entry_period_ms entry))
      (same_period_count all (entry_period_ms entry)) (entry_period_ms entry)

phase_ms-bounds :
    (rank peers period_ms : ℕ)
    → rank < peers
    → peers ≤ 60
    → 1 ≤ period_ms
    → period_ms < 2 ^ 16
    → (1 ≤ phase_ms rank peers period_ms) × (phase_ms rank peers period_ms ≤ period_ms)
unfolding phase_ms
phase_ms-bounds rank peers period_ms r p lo hi =
    let below = mul-le-mul_right period_ms more in
    let above = mul-le-mul_right period_ms p in
    let whole : (rank + 1) * period_ms % 2 ^ 32 ≡ (rank + 1) * period_ms = omega arith in
    let total : ((rank + 1) * period_ms % 2 ^ 32 + peers - 1) % 2 ^ 32
        ≡ (rank + 1) * period_ms + peers - 1 =
      omega (arith, whole) in
    let at_least : 1 * period_ms ≤ (rank + 1) * period_ms =
      mul-le-mul_right period_ms (omega arith) in
    let room : (rank + 1) * period_ms + peers - 1 < (period_ms + 1) * peers = grind arith in
    rw total (
      (le-div_iff_mul-le positive).1 (omega arith),
      omega (arith, (div-lt_iff_lt-mul positive).1 room),
    )
  where
    more : rank + 1 ≤ peers
    more = omega arith

    positive : 0 < peers
    positive = omega arith

-- The phase is the share `rank + 1` of `peers` of the period, rounded up.
phase_ms-share :
    (rank peers period_ms : ℕ)
    → rank < peers
    → peers ≤ 60
    → period_ms < 2 ^ 16
    → ((rank + 1) * period_ms ≤ phase_ms rank peers period_ms * peers)
      × (phase_ms rank peers period_ms * peers < (rank + 1) * period_ms + peers)
unfolding phase_ms
phase_ms-share rank peers period_ms r p hi =
    let below : (rank + 1) * period_ms ≤ peers * period_ms =
      mul-le-mul_right period_ms (omega arith) in
    let above = mul-le-mul_right period_ms p in
    let whole : (rank + 1) * period_ms % 2 ^ 32 ≡ (rank + 1) * period_ms = omega arith in
    let total : ((rank + 1) * period_ms % 2 ^ 32 + peers - 1) % 2 ^ 32
        ≡ (rank + 1) * period_ms + peers - 1 =
      omega (arith, whole) in
    let parts = div-add-mod' ((rank + 1) * period_ms + peers - 1) peers in
    let rest : ((rank + 1) * period_ms + peers - 1) % peers < peers = mod-lt _ (omega arith) in
    rw total (omega (arith, parts, rest), omega (arith, parts, rest))

-- Two shares of one period, the second of a higher rank
pub apart :
    (period_ms peers low high early late : ℕ)
    → 1 ≤ period_ms
    → low < high
    → early * peers < (low + 1) * period_ms + peers
    → (high + 1) * period_ms ≤ late * peers
    → (early ≤ late) × (period_ms < (late - early + 1) * peers)
apart period_ms peers low high early late one order before after =
    let shares : (low + 1 + 1) * period_ms ≤ (high + 1) * period_ms =
      mul-le-mul_right period_ms (omega arith) in
    elim order_of [
      | inr swapped ↦
          let m : (late + 1) * peers ≤ early * peers = mul-le-mul_right peers (omega arith) in
          absurd (grind arith)
      | inl ok ↦
          let gap = late - early in
          let e : late ≡ early + gap = omega arith in
          let product : late * peers ≡ (early + gap) * peers = ap (λ k. k * peers) e in
          (ok, grind arith)
    ]
  where
    order_of : (early ≤ late) ⊎ (late < early)
    order_of = omega arith

pub same_period_count-append :
    (xs ys : List PgnEntry) (period_ms : ℕ)
    → same_period_count (xs ++ ys) period_ms
      ≡ same_period_count xs period_ms + same_period_count ys period_ms
unfolding same_period_count
same_period_count-append [] ys period_ms = omega arith
same_period_count-append (x ∷ xs) ys period_ms =
    omega (arith, same_period_count-append xs ys period_ms)

same_period_count-le :
    (xs : List PgnEntry) (period_ms : ℕ) → same_period_count xs period_ms ≤ length xs
unfolding same_period_count
same_period_count-le [] period_ms = omega arith
same_period_count-le (x ∷ xs) period_ms = ground (arith, same_period_count-le xs period_ms)

pub same_or_not : (a b : ℕ) → (a ≡ b) ⊎ (a ≢ b)
same_or_not a b = elim (Bool-cases (a == b)) [
  | inl e ↦ inl (ground (arith, e))
  | inr e ↦ inr (λ k. ground (arith, e, k))
]

pub counts_itself : (entry : PgnEntry) → same_period_count (entry ∷ []) (entry_period_ms entry) ≡ 1
unfolding same_period_count
counts_itself entry = ground arith

own_period :
    (entry : PgnEntry) (entries : List PgnEntry)
    → 1 ≤ same_period_count (entry ∷ entries) (entry_period_ms entry)
unfolding same_period_count
own_period entry entries = ground arith

-- The phase of an entry in the list
pub record Place (all before : List PgnEntry) (entry : PgnEntry) : Type 0 where
  pub bounds : (1 ≤ phase_of all before entry) × (phase_of all before entry ≤ entry_period_ms entry)
  pub share :
      ((same_period_count before (entry_period_ms entry) + 1) * entry_period_ms entry
        ≤ phase_of all before entry * same_period_count all (entry_period_ms entry))
      × (phase_of all before entry * same_period_count all (entry_period_ms entry)
          < (same_period_count before (entry_period_ms entry) + 1) * entry_period_ms entry
            + same_period_count all (entry_period_ms entry))

pub place :
    (all before : List PgnEntry) (entry : PgnEntry) (entries : List PgnEntry)
    → all ≡ before ++ entry ∷ entries
    → length all ≤ 60
    → HasPeriod entry
    → Place all before entry
place all before entry entries parts few h =
    let period_ms = entry_period_ms entry in
    let rank = same_period_count before period_ms in
    let peers = same_period_count all period_ms in
    let split : peers ≡ rank + same_period_count (entry ∷ entries) period_ms =
      ap (λ es. same_period_count es period_ms) parts
      ∙ same_period_count-append before (entry ∷ entries) period_ms in
    let less : rank < peers = omega (arith, split, own_period entry entries) in
    let many : peers ≤ 60 = omega (arith, same_period_count-le all period_ms, few) in
    record {
      bounds = phase_ms-bounds rank peers period_ms less many h.0 h.1;
      share = phase_ms-share rank peers period_ms less many h.1;
    }
