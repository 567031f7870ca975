-- ===== src/Catalog/Pgns.antt =====
-- MID/j1939_signal_definitions.c: the 60 PGN records, in ascending order.
use teep_j1939_patent.Base.{List, [], ◌∷◌}
use teep_j1939_patent.Catalog.Records.{CatalogPgn, pgn_record}
use teep_j1939_patent.Catalog.Records.{
  tx_periodic, tx_on_change, tx_engine_speed_dependent, tx_on_request,
}

-- `J1939_Catalog_PGNs`; the columns are pgn, first_signal, payload_length, period_ms,
-- min_interval_ms, signal_count, priority, source_address, transmission_mode, flags and
-- change_threshold_pct.
unfoldable pub catalog_pgns : List CatalogPgn
catalog_pgns =
    pgn_record 0x02C8 0 8 10 0 2 6 0x0B tx_periodic 0x00 0
    ∷ pgn_record 0xE000 2 8 1000 0 1 6 0x00 tx_periodic 0x00 0
    ∷ pgn_record 0xF000 3 8 100 0 4 3 0x00 tx_periodic 0x00 0
    ∷ pgn_record 0xF001 7 8 100 0 5 6 0x0B tx_periodic 0x00 0
    ∷ pgn_record 0xF002 12 8 10 0 2 6 0x03 tx_periodic 0x00 0
    ∷ pgn_record 0xF003 14 8 50 0 6 3 0x00 tx_periodic 0x00 0
    ∷ pgn_record 0xF004 20 8 5000 0 6 3 0x00 tx_engine_speed_dependent 0x04 0
    ∷ pgn_record 0xF005 26 8 100 0 3 6 0x03 tx_periodic 0x00 0
    ∷ pgn_record 0xF009 29 8 10 0 4 6 0x0B tx_periodic 0x00 0
    ∷ pgn_record 0xF00B 33 8 20 0 1 6 0x00 tx_periodic 0x00 0
    ∷ pgn_record 0xF01D 34 8 10 0 1 6 0x00 tx_periodic 0x00 0
    ∷ pgn_record 0xFD09 35 8 1000 0 2 6 0x00 tx_periodic 0x00 0
    ∷ pgn_record 0xFD17 37 8 250 0 3 6 0x00 tx_periodic 0x00 0
    ∷ pgn_record 0xFD52 40 8 1000 0 1 6 0x00 tx_periodic 0x00 0
    ∷ pgn_record 0xFD66 41 8 1000 0 1 6 0x00 tx_periodic 0x00 0
    ∷ pgn_record 0xFDA2 42 8 500 0 1 6 0x00 tx_periodic 0x00 0
    ∷ pgn_record 0xFDA4 43 8 100 0 1 6 0x00 tx_periodic 0x00 0
    ∷ pgn_record 0xFDA5 44 8 100 0 6 6 0x00 tx_periodic 0x00 0
    ∷ pgn_record 0xFDCC 50 8 1000 100 2 6 0x00 tx_on_change 0x00 0
    ∷ pgn_record 0xFE41 52 8 1000 100 3 3 0x00 tx_on_change 0x00 0
    ∷ pgn_record 0xFE56 55 8 1000 0 3 6 0x00 tx_periodic 0x00 0
    ∷ pgn_record 0xFE5B 58 8 100 0 2 6 0x00 tx_periodic 0x00 0
    ∷ pgn_record 0xFE5E 60 8 1000 0 1 6 0x00 tx_periodic 0x00 0
    ∷ pgn_record 0xFE69 61 8 1000 0 1 6 0x00 tx_periodic 0x00 0
    ∷ pgn_record 0xFE6C 62 8 50 0 9 3 0x00 tx_periodic 0x00 0
    ∷ pgn_record 0xFE6E 71 8 20 0 4 2 0x0B tx_periodic 0x00 0
    ∷ pgn_record 0xFE6F 75 8 100 0 7 4 0x00 tx_periodic 0x00 0
    ∷ pgn_record 0xFE70 82 8 1000 0 2 6 0x00 tx_on_request 0x00 0
    ∷ pgn_record 0xFE8D 84 8 1000 0 1 7 0x00 tx_on_request 0x00 0
    ∷ pgn_record 0xFE92 85 8 100 0 1 7 0x00 tx_periodic 0x00 0
    ∷ pgn_record 0xFEA4 86 8 1000 0 1 6 0x00 tx_periodic 0x00 0
    ∷ pgn_record 0xFEA6 87 8 500 0 4 6 0x00 tx_periodic 0x00 0
    ∷ pgn_record 0xFEAE 91 8 1000 0 2 6 0x00 tx_periodic 0x00 0
    ∷ pgn_record 0xFEBD 93 8 1000 0 2 6 0x00 tx_periodic 0x00 0
    ∷ pgn_record 0xFEBF 95 8 100 0 7 6 0x00 tx_periodic 0x00 0
    ∷ pgn_record 0xFEC1 102 8 1000 0 2 6 0x00 tx_periodic 0x00 0
    ∷ pgn_record 0xFEC6 104 8 100 100 5 6 0x00 tx_on_request 0x04 0
    ∷ pgn_record 0xFECA 109 8 1000 0 2 6 0x00 tx_on_request 0x04 0
    ∷ pgn_record 0xFEDC 111 8 1000 0 1 6 0x00 tx_on_request 0x00 0
    ∷ pgn_record 0xFEDF 112 8 250 0 3 6 0x00 tx_periodic 0x00 0
    ∷ pgn_record 0xFEE0 115 8 100 0 2 6 0x00 tx_periodic 0x00 0
    ∷ pgn_record 0xFEE1 117 18 5000 100 2 6 0x00 tx_on_change 0x01 10
    ∷ pgn_record 0xFEE3 119 21 5000 100 1 6 0x00 tx_on_change 0x01 10
    ∷ pgn_record 0xFEE4 120 8 1000 0 1 6 0x00 tx_periodic 0x00 0
    ∷ pgn_record 0xFEE5 121 8 1000 0 1 6 0x00 tx_on_request 0x00 0
    ∷ pgn_record 0xFEE6 122 8 1000 0 6 6 0x00 tx_on_request 0x00 0
    ∷ pgn_record 0xFEE9 128 8 1000 0 2 6 0x00 tx_on_request 0x00 0
    ∷ pgn_record 0xFEEA 130 8 1000 0 2 6 0x00 tx_on_request 0x00 0
    ∷ pgn_record 0xFEEC 132 200 5000 0 1 6 0x00 tx_on_request 0x03 0
    ∷ pgn_record 0xFEEE 133 8 1000 0 4 6 0x00 tx_periodic 0x00 0
    ∷ pgn_record 0xFEEF 137 8 500 0 2 6 0x00 tx_periodic 0x00 0
    ∷ pgn_record 0xFEF1 139 8 100 0 14 6 0x00 tx_periodic 0x00 0
    ∷ pgn_record 0xFEF2 153 8 100 0 4 6 0x00 tx_periodic 0x00 0
    ∷ pgn_record 0xFEF5 157 8 1000 0 4 6 0x00 tx_periodic 0x00 0
    ∷ pgn_record 0xFEF6 161 8 500 0 4 6 0x00 tx_periodic 0x00 0
    ∷ pgn_record 0xFEF7 165 8 1000 0 5 6 0x00 tx_periodic 0x00 0
    ∷ pgn_record 0xFEF9 170 8 1000 0 1 6 0x00 tx_periodic 0x00 0
    ∷ pgn_record 0xFEFA 171 8 1000 0 3 6 0x0B tx_periodic 0x00 0
    ∷ pgn_record 0xFEFC 174 8 1000 0 4 6 0x00 tx_periodic 0x00 0
    ∷ pgn_record 0xFFB1 178 8 330 0 1 6 0x00 tx_periodic 0x00 0
    ∷ []
