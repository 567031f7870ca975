-- ===== src/Catalog/Lookup.antt =====
-- MID/j1939_signal_definitions.c: the lookups by key, by PGN and by (PGN, SPN).
use teep_j1939_patent.Base.{ℕ, zero, suc, ◌+◌, ◌-◌, ◌/◌, List, get_or}
use teep_j1939_patent.Base.{Bool, ◌||◌, ltb, ◌==◌, ◌!=◌, if◌then◌else◌, u16, bit_and}
use teep_j1939_patent.Catalog.Records.{CatalogSignal, CatalogPgn, no_signal, no_pgn, sig_blob}
use teep_j1939_patent.Catalog.Records.{key_min, key_max, index_invalid, catalog_pgn_count}
use teep_j1939_patent.Catalog.Signals.{catalog_signals}
use teep_j1939_patent.Catalog.Pgns.{catalog_pgns}
use teep_j1939_patent.Catalog.Keys.{catalog_key_to_index}

-- `J1939_Catalog_Signals[index]`, read inside the table.
unfoldable pub signal_at : ℕ → CatalogSignal
signal_at index = get_or catalog_signals index no_signal

-- `J1939_Catalog_PGNs[index]`, read inside the table.
unfoldable pub pgn_at : ℕ → CatalogPgn
pgn_at index = get_or catalog_pgns index no_pgn

-- `(flags & J1939_CAT_SIG_BLOB) != 0u`
abbrev pub is_blob_signal : CatalogSignal → Bool
is_blob_signal sig = bit_and sig.flags sig_blob != 0

-- `J1939_Catalog_Index_From_Key`
unfoldable pub index_from_key : ℕ → ℕ
index_from_key signal_key =
    if ltb signal_key key_min || ltb key_max signal_key
    then index_invalid
    else if get_or catalog_key_to_index signal_key 0xff == 0xff
    then index_invalid
    else get_or catalog_key_to_index signal_key 0xff

-- The loop of `J1939_Catalog_Find_PGN_Index` over a PGN table, with fuel above `hi - lo`.
unfoldable pub find_pgn_loop : List CatalogPgn → ℕ → ℕ → ℕ → ℕ → ℕ
find_pgn_loop pgns pgn zero lo hi = index_invalid
find_pgn_loop pgns pgn (suc fuel) lo hi =
    let mid = u16 (lo + (hi - lo) / 2) in
    let entry = (get_or pgns mid no_pgn).pgn in
    let above = find_pgn_loop pgns pgn fuel (u16 (mid + 1)) hi in
    let below = find_pgn_loop pgns pgn fuel lo mid in
    if ltb lo hi
    then if entry == pgn then mid else if ltb entry pgn then above else below
    else index_invalid

-- `J1939_Catalog_Find_PGN_Index`; 61 rounds are more than 60 entries can take.
unfoldable pub find_pgn_index : ℕ → ℕ
find_pgn_index pgn = find_pgn_loop catalog_pgns pgn (suc catalog_pgn_count) 0 catalog_pgn_count

-- The loop of `J1939_Catalog_Find_Signal_Index`: `left` records from `i` on.
unfoldable pub find_spn_loop : ℕ → ℕ → ℕ → ℕ
find_spn_loop spn zero i = index_invalid
find_spn_loop spn (suc left) i =
    if (signal_at i).spn == spn then i else find_spn_loop spn left (i + 1)

-- `J1939_Catalog_Find_Signal_Index`
unfoldable pub find_signal_index : ℕ → ℕ → ℕ
find_signal_index pgn spn =
    let pgn_index = find_pgn_index pgn in
    if pgn_index == index_invalid
    then index_invalid
    else find_spn_loop spn (pgn_at pgn_index).signal_count (pgn_at pgn_index).first_signal
