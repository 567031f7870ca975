-- ===== src/Examples/Tables.antt =====
-- MID/j1939_signal_definitions.c: the catalog's theorems at its first records.
use teep_j1939_patent.Base.{◌+◌, ◌≤◌, ◌<◌, ◌≡◌, ◌↔◌, refl, arith}
use teep_j1939_patent.Catalog.{signal_at, pgn_at, find_pgn_index}
use teep_j1939_patent.Catalog.{catalog_signals, catalog_pgn_count}
use teep_j1939_patent.Catalog.WellFormed.{
  IsWellFormed, IsUsable, signal-IsWellFormed, neighbours_disjoint, pgn_at-IsUsable,
}
use teep_j1939_patent.Catalog.Search.{find_pgn_index_iff, IsUnlisted}
use teep_j1939_patent.Catalog.{index_invalid}

signal-IsWellFormed_example : IsWellFormed 3
signal-IsWellFormed_example = signal-IsWellFormed 3 (omega arith)

same_pgn : (signal_at 3).pgn_index ≡ (signal_at 4).pgn_index
unfolding signal_at catalog_signals
same_pgn = refl

neighbours_disjoint_example :
    (signal_at 3).start_bit + (signal_at 3).bit_length ≤ (signal_at 4).start_bit
neighbours_disjoint_example = neighbours_disjoint 3 (omega arith) same_pgn

pgn_at-IsUsable_example : IsUsable 59
pgn_at-IsUsable_example = pgn_at-IsUsable 59 (omega arith)

find_pgn_index_iff_example :
    (((find_pgn_index 61444 ≡ 6) × (6 < catalog_pgn_count))
      ↔ ((6 < catalog_pgn_count) × ((pgn_at 6).pgn ≡ 61444)))
    × ((find_pgn_index 61444 ≡ index_invalid) ↔ IsUnlisted 61444)
find_pgn_index_iff_example = find_pgn_index_iff 61444 6
