-- ===== src/Catalog/Ranges.antt =====
-- MID/j1939_signal_definitions.c: the records of one PGN, in the order of their fields.
use teep_j1939_patent.Base.{ℕ, zero, suc, ◌+◌, ◌-◌, ◌≤◌, ◌<◌, ◌≡◌, refl, sym, ap, subst, ◌∙◌, arith}
use teep_j1939_patent.Base.{Bool, true, ◌==◌, all_below, all_below_sound}
use teep_j1939_patent.Catalog.Records.{catalog_pgn_count, catalog_signal_count}
use teep_j1939_patent.Catalog.Lookup.{signal_at, pgn_at}
use teep_j1939_patent.Catalog.Signals.{catalog_signals}
use teep_j1939_patent.Catalog.Pgns.{catalog_pgns}
use teep_j1939_patent.Catalog.WellFormed.{pgn_at-IsUsable, neighbours_disjoint}

-- Record `i` is one of those of PGN `k`.
pub record InRange (k i : ℕ) : Type 0 where
  pub pgn : k < catalog_pgn_count
  pub from : (pgn_at k).first_signal ≤ i
  pub below : i < (pgn_at k).first_signal + (pgn_at k).signal_count

range_row : ℕ → Bool
range_row k =
    all_below (pgn_at k).signal_count
      (λ j. (signal_at ((pgn_at k).first_signal + j)).pgn_index == k)

range_table : all_below catalog_pgn_count range_row ≡ true
unfolding range_row all_below signal_at pgn_at catalog_signals catalog_pgns
range_table = refl

pub pgn_index-InRange : (k i : ℕ) → InRange k i → (signal_at i).pgn_index ≡ k
unfolding range_row
pgn_index-InRange k i r =
    let row = all_below_sound catalog_pgn_count range_row k range_table r.pgn in
    let j = i - (pgn_at k).first_signal in
    let here =
      all_below_sound (pgn_at k).signal_count
        (λ j. (signal_at ((pgn_at k).first_signal + j)).pgn_index == k) j row
        (omega (arith, r.from, r.below)) in
    let at : (pgn_at k).first_signal + j ≡ i = omega (arith, r.from) in ground (arith, here, at)

pub range-in_catalog : (k i : ℕ) → InRange k i → i < catalog_signal_count
range-in_catalog k i r = omega (arith, r.below, (pgn_at-IsUsable k r.pgn).range_fits)

next_apart :
    (k i : ℕ)
    → InRange k i
    → InRange k (suc i)
    → (signal_at i).start_bit + (signal_at i).bit_length ≤ (signal_at (suc i)).start_bit
next_apart k i r q =
    neighbours_disjoint i (range-in_catalog k (suc i) q)
      (pgn_index-InRange k i r ∙ sym (pgn_index-InRange k (suc i) q))

-- A later record of a PGN starts behind an earlier one.
pub fields_apart :
    (k i d j : ℕ)
    → InRange k i
    → InRange k j
    → suc (i + d) ≡ j
    → (signal_at i).start_bit + (signal_at i).bit_length ≤ (signal_at j).start_bit
fields_apart k i zero j r q e =
    let at : suc i ≡ j = omega (arith, e) in
    subst (λ t. (signal_at i).start_bit + (signal_at i).bit_length ≤ (signal_at t).start_bit) at
      (next_apart k i r (subst (InRange k) (sym at) q))
fields_apart k i (suc d) j r q e =
    let before = suc (i + d) in
    let at : suc before ≡ j = omega (arith, e) in
    let b : InRange k before = record {
      pgn = r.pgn;
      from = omega (arith, r.from);
      below = omega (arith, q.below, e);
    } in
    let earlier = fields_apart k i d before r b refl in
    let last = next_apart k before b (subst (InRange k) (sym at) q) in
    let start = ap (λ t. (signal_at t).start_bit) at in omega (arith, earlier, last, start)
