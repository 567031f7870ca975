-- ===== src/Catalog/Search.antt =====
-- MID/j1939_signal_definitions.c: the binary search by PGN and the scan by SPN.
use teep_j1939_patent.Base.{ℕ, zero, suc, ◌+◌, ◌-◌, ◌/◌, ◌^◌, ◌≤◌, ◌<◌, ◌≡◌, refl, arith}
use teep_j1939_patent.Base.{◌↔◌, ◌⊎◌, inl, ap, ◌∙◌, sym, Bool, true, ◌==◌, List}
use teep_j1939_patent.Base.{all_below, all_below_sound, all_below_complete, ◌!=◌, inr, get_or, u16}
use teep_j1939_patent.Catalog.Records.{CatalogPgn, catalog_pgn_count, index_invalid, no_pgn}
use teep_j1939_patent.Catalog.Pgns.{catalog_pgns}
use teep_j1939_patent.Catalog.Lookup.{pgn_at, signal_at, find_pgn_loop, find_pgn_index}
use teep_j1939_patent.Catalog.Lookup.{find_spn_loop, find_signal_index}

-- Whatever the search returns is a match inside its range, or the invalid index.
Found : List CatalogPgn → ℕ → ℕ → ℕ → Type 0
Found pgns pgn hi r = (r ≡ index_invalid) ⊎ ((r < hi) × ((get_or pgns r no_pgn).pgn ≡ pgn))

find_pgn_loop-Found :
    (pgns : List CatalogPgn) (pgn fuel lo hi : ℕ)
    → hi < 2 ^ 15
    → Found pgns pgn hi (find_pgn_loop pgns pgn fuel lo hi)
unfolding find_pgn_loop Found
find_pgn_loop-Found pgns pgn zero lo hi h = inl refl
find_pgn_loop-Found pgns pgn (suc fuel) lo hi h =
    let mid = u16 (lo + (hi - lo) / 2) in
    ground (
      arith,
      find_pgn_loop-Found pgns pgn fuel (u16 (mid + 1)) hi h,
      find_pgn_loop-Found pgns pgn fuel lo mid,
    )

entry_row : ℕ → Bool
entry_row k = find_pgn_index (pgn_at k).pgn == k

entry_table : all_below catalog_pgn_count entry_row ≡ true
unfolding entry_row all_below find_pgn_index find_pgn_loop pgn_at catalog_pgns
entry_table = refl

found_iff :
    (pgn k : ℕ)
    → ((find_pgn_index pgn ≡ k) × (k < catalog_pgn_count))
      ↔ ((k < catalog_pgn_count) × ((pgn_at k).pgn ≡ pgn))
unfolding find_pgn_index Found pgn_at entry_row
found_iff pgn k = (
  λ e.
      ground
        (arith, find_pgn_loop-Found catalog_pgns pgn (suc catalog_pgn_count) 0 catalog_pgn_count),
  λ e. (
    ap find_pgn_index (sym e.1)
        ∙ (ground (arith, all_below_sound catalog_pgn_count entry_row k entry_table e.0)),
    e.0,
  ),
)

pub find_pgn_index-invalid :
    (pgn : ℕ) → (find_pgn_index pgn < catalog_pgn_count) ⊎ (find_pgn_index pgn ≡ index_invalid)
unfolding find_pgn_index Found
find_pgn_index-invalid pgn =
    ground (arith, find_pgn_loop-Found catalog_pgns pgn (suc catalog_pgn_count) 0 catalog_pgn_count)

-- No entry of the table has the PGN.
abbrev pub IsUnlisted : ℕ → Type 0
IsUnlisted pgn = all_below catalog_pgn_count (λ i. (pgn_at i).pgn != pgn) ≡ true

invalid-IsUnlisted : (pgn : ℕ) → find_pgn_index pgn ≡ index_invalid → IsUnlisted pgn
invalid-IsUnlisted pgn e =
    all_below_complete catalog_pgn_count (λ i. (pgn_at i).pgn != pgn)
      (λ i below. ground (arith, e, found_iff pgn i))

unlisted_invalid : (pgn : ℕ) → IsUnlisted pgn → find_pgn_index pgn ≡ index_invalid
unlisted_invalid pgn none_of = elim (find_pgn_index-invalid pgn) [
  | inr e ↦ e
  | inl below ↦
      let same = (found_iff pgn (find_pgn_index pgn)).0 (refl, below) in
      let other =
        all_below_sound catalog_pgn_count (λ i. (pgn_at i).pgn != pgn) (find_pgn_index pgn) none_of
          below in
      ground (arith, same.1, other)
]

-- `J1939_Catalog_Find_PGN_Index` returns `k < 60` exactly for the PGN of table entry `k`, and it
-- returns `J1939_CATALOG_INDEX_INVALID` exactly for a PGN that no entry has.
pub find_pgn_index_iff :
    (pgn k : ℕ)
    → (((find_pgn_index pgn ≡ k) × (k < catalog_pgn_count))
        ↔ ((k < catalog_pgn_count) × ((pgn_at k).pgn ≡ pgn)))
      × ((find_pgn_index pgn ≡ index_invalid) ↔ IsUnlisted pgn)
find_pgn_index_iff pgn k = (found_iff pgn k, (invalid-IsUnlisted pgn, unlisted_invalid pgn))

-- The scan returns the first record of its range with the SPN.
find_spn_loop_lem :
    (spn left i : ℕ)
    → (find_spn_loop spn left i ≡ index_invalid)
      ⊎ ((i ≤ find_spn_loop spn left i)
          × (find_spn_loop spn left i < i + left)
          × ((signal_at (find_spn_loop spn left i)).spn ≡ spn))
unfolding find_spn_loop
find_spn_loop_lem spn zero i = inl refl
find_spn_loop_lem spn (suc left) i = ground (arith, find_spn_loop_lem spn left (i + 1))

-- What `J1939_Catalog_Find_Signal_Index` returns is `J1939_CATALOG_INDEX_INVALID`, or a record
-- with that SPN in the range of the entry with that PGN.
pub find_signal_index_sound :
    (pgn spn : ℕ)
    → (find_signal_index pgn spn ≡ index_invalid)
      ⊎ (((pgn_at (find_pgn_index pgn)).pgn ≡ pgn)
          × ((pgn_at (find_pgn_index pgn)).first_signal ≤ find_signal_index pgn spn)
          × (find_signal_index pgn spn
              < (pgn_at (find_pgn_index pgn)).first_signal
                + (pgn_at (find_pgn_index pgn)).signal_count)
          × ((signal_at (find_signal_index pgn spn)).spn ≡ spn))
unfolding find_signal_index
find_signal_index_sound pgn spn =
    let k = find_pgn_index pgn in
    ground (
      arith,
      find_pgn_index-invalid pgn,
      found_iff pgn k,
      find_spn_loop_lem spn (pgn_at k).signal_count (pgn_at k).first_signal,
    )
