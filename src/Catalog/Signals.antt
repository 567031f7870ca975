-- ===== src/Catalog/Signals.antt =====
-- MID/j1939_signal_definitions.c: the 179 signal records, ordered by PGN and start bit.
use teep_j1939_patent.Base.{List, [], ◌∷◌}
use teep_j1939_patent.Catalog.Records.{CatalogSignal, signal}
use teep_j1939_patent.Catalog.Records.{kind_continuous, kind_boolean, kind_enum, kind_blob}
use teep_j1939_patent.Catalog.Records.{codec_none, codec_ascii_blob}

-- `J1939_Catalog_Signals`; the columns are raw_min, raw_max, spn, signal_key, start_bit,
-- bit_length, pgn_index, scale_index, control_kind, flags and special_codec.
unfoldable pub catalog_signals : List CatalogSignal
catalog_signals =
    signal 0 3 5113 113 0 2 0 0 kind_boolean 0x00 codec_none
    ∷ signal 0 3 5114 114 8 2 0 0 kind_boolean 0x00 codec_none
    ∷ signal 0 3 1856 141 30 2 1 0 kind_boolean 0x00 codec_none
    ∷ signal 0 15 900 84 0 4 2 0 kind_enum 0x00 codec_none
    ∷ signal 0 250 520 85 8 8 2 1 kind_continuous 0x01 codec_none
    ∷ signal 0 250 1715 86 40 8 2 1 kind_continuous 0x01 codec_none
    ∷ signal 0 250 1717 87 56 8 2 1 kind_continuous 0x01 codec_none
    ∷ signal 0 3 563 122 4 2 3 0 kind_boolean 0x00 codec_none
    ∷ signal 0 3 1121 123 6 2 3 0 kind_boolean 0x00 codec_none
    ∷ signal 0 250 521 124 8 8 3 2 kind_continuous 0x01 codec_none
    ∷ signal 0 255 1481 125 48 8 3 0 kind_enum 0x00 codec_none
    ∷ signal 0 3 2911 126 58 2 3 0 kind_boolean 0x00 codec_none
    ∷ signal 0 3 574 74 4 2 4 0 kind_boolean 0x00 codec_none
    ∷ signal 0 250 522 75 24 8 4 2 kind_continuous 0x01 codec_none
    ∷ signal 0 3 558 94 0 2 5 0 kind_boolean 0x00 codec_none
    ∷ signal 0 3 559 95 2 2 5 0 kind_boolean 0x00 codec_none
    ∷ signal 0 3 1437 96 4 2 5 0 kind_boolean 0x00 codec_none
    ∷ signal 0 250 91 97 8 8 5 2 kind_continuous 0x01 codec_none
    ∷ signal 0 250 92 98 16 8 5 0 kind_continuous 0x01 codec_none
    ∷ signal 0 250 29 99 32 8 5 2 kind_continuous 0x01 codec_none
    ∷ signal 0 15 899 100 0 4 6 0 kind_enum 0x00 codec_none
    ∷ signal 0 250 512 101 8 8 6 1 kind_continuous 0x01 codec_none
    ∷ signal 0 250 513 102 16 8 6 1 kind_continuous 0x01 codec_none
    ∷ signal 0 64255 190 103 24 16 6 3 kind_continuous 0x01 codec_none
    ∷ signal 0 15 1675 104 48 4 6 0 kind_enum 0x00 codec_none
    ∷ signal 0 250 2432 105 56 8 6 1 kind_continuous 0x01 codec_none
    ∷ signal 0 250 524 71 0 8 7 1 kind_continuous 0x01 codec_none
    ∷ signal 0 64255 526 72 8 16 7 4 kind_continuous 0x01 codec_none
    ∷ signal 0 250 523 73 24 8 7 1 kind_continuous 0x01 codec_none
    ∷ signal 0 64254 1807 12 0 16 8 5 kind_continuous 0x05 codec_none
    ∷ signal 0 64255 1808 13 24 16 8 6 kind_continuous 0x09 codec_none
    ∷ signal 0 64254 1809 14 40 16 8 7 kind_continuous 0x01 codec_none
    ∷ signal 0 250 1810 15 56 8 8 8 kind_continuous 0x01 codec_none
    ∷ signal 0 255 928 83 16 8 9 0 kind_enum 0x04 codec_none
    ∷ signal 0 64254 1807 34 0 16 10 5 kind_continuous 0x05 codec_none
    ∷ signal 0 4211081215 5053 63 0 32 11 4 kind_continuous 0x01 codec_none
    ∷ signal 0 4211081215 5054 64 32 32 11 4 kind_continuous 0x01 codec_none
    ∷ signal 0 3 4952 156 0 2 12 0 kind_boolean 0x00 codec_none
    ∷ signal 0 3 4953 157 2 2 12 0 kind_boolean 0x00 codec_none
    ∷ signal 0 3 4962 158 20 2 12 0 kind_boolean 0x00 codec_none
    ∷ signal 0 250 4196 106 8 8 13 9 kind_continuous 0x01 codec_none
    ∷ signal 0 250 4076 76 0 8 14 9 kind_continuous 0x01 codec_none
    ∷ signal 0 64255 3467 66 16 16 15 10 kind_continuous 0x01 codec_none
    ∷ signal 0 3 3948 38 48 2 16 0 kind_boolean 0x00 codec_none
    ∷ signal 0 3 3412 133 0 2 17 0 kind_boolean 0x00 codec_none
    ∷ signal 0 3 3413 134 2 2 17 0 kind_boolean 0x00 codec_none
    ∷ signal 0 3 3414 135 4 2 17 0 kind_boolean 0x00 codec_none
    ∷ signal 0 3 3415 136 6 2 17 0 kind_boolean 0x00 codec_none
    ∷ signal 0 3 3416 137 8 2 17 0 kind_boolean 0x00 codec_none
    ∷ signal 0 3 3417 138 10 2 17 0 kind_boolean 0x00 codec_none
    ∷ signal 0 15 2876 39 8 4 18 0 kind_enum 0x00 codec_none
    ∷ signal 0 3 2875 40 12 2 18 0 kind_boolean 0x00 codec_none
    ∷ signal 0 3 2403 47 0 2 19 0 kind_boolean 0x00 codec_none
    ∷ signal 0 3 2369 48 12 2 19 0 kind_boolean 0x00 codec_none
    ∷ signal 0 3 2367 49 14 2 19 0 kind_boolean 0x00 codec_none
    ∷ signal 0 250 1761 162 0 8 20 2 kind_continuous 0x01 codec_none
    ∷ signal 0 250 3031 163 8 8 20 9 kind_continuous 0x01 codec_none
    ∷ signal 0 64255 3532 164 16 16 20 11 kind_continuous 0x01 codec_none
    ∷ signal 0 3 1711 67 2 2 21 0 kind_boolean 0x00 codec_none
    ∷ signal 0 3 1710 68 4 2 21 0 kind_boolean 0x00 codec_none
    ∷ signal 0 64255 242 35 8 16 22 12 kind_continuous 0x09 codec_none
    ∷ signal 0 64255 1637 77 16 16 23 12 kind_continuous 0x09 codec_none
    ∷ signal 0 15 1617 24 8 4 24 0 kind_enum 0x00 codec_none
    ∷ signal 0 3 1614 25 14 2 24 0 kind_boolean 0x00 codec_none
    ∷ signal 0 15 1618 26 16 4 24 0 kind_enum 0x00 codec_none
    ∷ signal 0 3 1622 27 24 2 24 0 kind_boolean 0x00 codec_none
    ∷ signal 0 3 1621 28 26 2 24 0 kind_boolean 0x00 codec_none
    ∷ signal 0 3 1620 29 28 2 24 0 kind_boolean 0x00 codec_none
    ∷ signal 0 3 1619 30 30 2 24 0 kind_boolean 0x00 codec_none
    ∷ signal 0 64255 1623 31 32 16 24 3 kind_continuous 0x01 codec_none
    ∷ signal 0 64255 1624 32 48 16 24 13 kind_continuous 0x01 codec_none
    ∷ signal 0 64255 1592 59 0 16 25 13 kind_continuous 0x01 codec_none
    ∷ signal 0 64255 1593 60 16 16 25 13 kind_continuous 0x01 codec_none
    ∷ signal 0 64255 1594 61 32 16 25 13 kind_continuous 0x01 codec_none
    ∷ signal 0 64255 1595 62 48 16 25 13 kind_continuous 0x01 codec_none
    ∷ signal 0 250 1586 172 0 8 26 0 kind_continuous 0x01 codec_none
    ∷ signal 0 250 1587 173 8 8 26 0 kind_continuous 0x01 codec_none
    ∷ signal 0 250 1588 174 16 8 26 0 kind_continuous 0x01 codec_none
    ∷ signal 0 7 1590 175 24 3 26 0 kind_enum 0x00 codec_none
    ∷ signal 0 7 1589 176 27 3 26 0 kind_enum 0x00 codec_none
    ∷ signal 0 3 1798 177 48 2 26 0 kind_boolean 0x00 codec_none
    ∷ signal 0 3 1797 178 50 2 26 0 kind_boolean 0x00 codec_none
    ∷ signal 0 64255 1585 139 0 16 27 14 kind_continuous 0x01 codec_none
    ∷ signal 0 64255 1760 140 16 16 27 14 kind_continuous 0x01 codec_none
    ∷ signal 0 64255 444 4 0 16 28 10 kind_continuous 0x01 codec_none
    ∷ signal 0 64255 1241 88 32 16 29 10 kind_continuous 0x01 codec_none
    ∷ signal 0 64255 1135 78 0 16 30 12 kind_continuous 0x09 codec_none
    ∷ signal 0 64255 1127 51 0 16 31 3 kind_continuous 0x01 codec_none
    ∷ signal 0 64255 1128 52 16 16 31 3 kind_continuous 0x01 codec_none
    ∷ signal 0 64255 1129 53 32 16 31 3 kind_continuous 0x01 codec_none
    ∷ signal 0 64255 1130 54 48 16 31 3 kind_continuous 0x01 codec_none
    ∷ signal 0 250 1087 169 16 8 32 15 kind_continuous 0x01 codec_none
    ∷ signal 0 250 1088 170 24 8 32 15 kind_continuous 0x01 codec_none
    ∷ signal 0 15 977 69 8 4 33 0 kind_enum 0x00 codec_none
    ∷ signal 0 64255 1639 70 16 16 33 3 kind_continuous 0x01 codec_none
    ∷ signal 0 64255 904 115 0 16 34 13 kind_continuous 0x01 codec_none
    ∷ signal 0 250 905 116 16 8 34 16 kind_continuous 0x01 codec_none
    ∷ signal 0 250 906 117 24 8 34 16 kind_continuous 0x01 codec_none
    ∷ signal 0 250 907 118 32 8 34 16 kind_continuous 0x01 codec_none
    ∷ signal 0 250 908 119 40 8 34 16 kind_continuous 0x01 codec_none
    ∷ signal 0 250 909 120 48 8 34 16 kind_continuous 0x01 codec_none
    ∷ signal 0 250 910 121 56 8 34 16 kind_continuous 0x01 codec_none
    ∷ signal 0 4211081 917 10 0 32 35 17 kind_continuous 0x09 codec_none
    ∷ signal 0 4211081 918 11 32 32 35 17 kind_continuous 0x09 codec_none
    ∷ signal 0 3 5108 108 0 2 36 0 kind_boolean 0x00 codec_none
    ∷ signal 0 3 5109 109 6 2 36 0 kind_boolean 0x00 codec_none
    ∷ signal 0 15 5110 110 8 4 36 0 kind_enum 0x00 codec_none
    ∷ signal 0 15 5111 111 12 4 36 0 kind_enum 0x00 codec_none
    ∷ signal 0 250 241 112 32 8 36 14 kind_continuous 0x09 codec_none
    ∷ signal 0 3 623 127 2 2 37 0 kind_boolean 0x00 codec_none
    ∷ signal 0 3 624 128 4 2 37 0 kind_boolean 0x00 codec_none
    ∷ signal 0 4211081215 235 50 32 32 38 10 kind_continuous 0x01 codec_none
    ∷ signal 0 250 514 91 0 8 39 1 kind_continuous 0x01 codec_none
    ∷ signal 0 250 2978 92 32 8 39 1 kind_continuous 0x01 codec_none
    ∷ signal 0 64255 3236 93 40 16 39 18 kind_continuous 0x01 codec_none
    ∷ signal 0 4211081215 244 16 0 32 40 3 kind_continuous 0x01 codec_none
    ∷ signal 0 4211081215 245 17 32 32 40 3 kind_continuous 0x01 codec_none
    ∷ signal 0 15 901 36 0 4 41 0 kind_enum 0x00 codec_none
    ∷ signal 0 64255 556 37 128 16 41 0 kind_continuous 0x01 codec_none
    ∷ signal 0 64255 544 107 152 16 42 0 kind_continuous 0x01 codec_none
    ∷ signal 0 3 985 33 16 2 43 0 kind_boolean 0x00 codec_none
    ∷ signal 0 4211081215 247 65 0 32 44 10 kind_continuous 0x01 codec_none
    ∷ signal 0 250 959 18 0 8 45 19 kind_continuous 0x01 codec_none
    ∷ signal 0 250 960 19 8 8 45 0 kind_continuous 0x01 codec_none
    ∷ signal 0 250 961 20 16 8 45 0 kind_continuous 0x01 codec_none
    ∷ signal 0 250 963 21 24 8 45 0 kind_continuous 0x01 codec_none
    ∷ signal 0 250 962 22 32 8 45 19 kind_continuous 0x01 codec_none
    ∷ signal 0 250 964 23 40 8 45 20 kind_continuous 0x01 codec_none
    ∷ signal 0 4211081215 182 45 0 32 46 21 kind_continuous 0x01 codec_none
    ∷ signal 0 4211081215 250 46 32 32 46 21 kind_continuous 0x01 codec_none
    ∷ signal 0 255 928 1 0 8 47 0 kind_enum 0x04 codec_none
    ∷ signal 0 64255 582 2 8 16 47 21 kind_continuous 0x01 codec_none
    ∷ signal 0 255 237 3 0 1600 48 0 kind_blob 0x02 codec_ascii_blob
    ∷ signal 0 250 110 79 0 8 49 9 kind_continuous 0x01 codec_none
    ∷ signal 0 250 174 80 8 8 49 9 kind_continuous 0x01 codec_none
    ∷ signal 0 64255 175 81 16 16 49 12 kind_continuous 0x09 codec_none
    ∷ signal 0 250 52 82 48 8 49 9 kind_continuous 0x01 codec_none
    ∷ signal 0 250 98 89 16 8 50 2 kind_continuous 0x01 codec_none
    ∷ signal 0 250 100 90 24 8 50 22 kind_continuous 0x01 codec_none
    ∷ signal 0 3 70 142 2 2 51 0 kind_boolean 0x00 codec_none
    ∷ signal 0 3 3807 143 6 2 51 0 kind_boolean 0x00 codec_none
    ∷ signal 0 64255 84 144 8 16 51 13 kind_continuous 0x01 codec_none
    ∷ signal 0 3 595 145 24 2 51 0 kind_boolean 0x00 codec_none
    ∷ signal 0 3 596 146 26 2 51 0 kind_boolean 0x00 codec_none
    ∷ signal 0 3 597 147 28 2 51 0 kind_boolean 0x00 codec_none
    ∷ signal 0 3 598 148 30 2 51 0 kind_boolean 0x00 codec_none
    ∷ signal 0 3 599 149 32 2 51 0 kind_boolean 0x00 codec_none
    ∷ signal 0 3 600 150 34 2 51 0 kind_boolean 0x00 codec_none
    ∷ signal 0 3 601 151 36 2 51 0 kind_boolean 0x00 codec_none
    ∷ signal 0 3 602 152 38 2 51 0 kind_boolean 0x00 codec_none
    ∷ signal 0 250 86 153 40 8 51 0 kind_continuous 0x01 codec_none
    ∷ signal 0 31 976 154 48 5 51 0 kind_enum 0x00 codec_none
    ∷ signal 0 7 527 155 53 3 51 0 kind_enum 0x00 codec_none
    ∷ signal 0 64255 183 41 0 16 52 10 kind_continuous 0x01 codec_none
    ∷ signal 0 64255 184 42 16 16 52 23 kind_continuous 0x09 codec_none
    ∷ signal 0 64255 185 43 32 16 52 23 kind_continuous 0x09 codec_none
    ∷ signal 0 250 51 44 48 8 52 2 kind_continuous 0x01 codec_none
    ∷ signal 0 250 108 165 0 8 53 21 kind_continuous 0x01 codec_none
    ∷ signal 0 64255 170 166 8 16 53 12 kind_continuous 0x09 codec_none
    ∷ signal 0 64255 171 167 24 16 53 12 kind_continuous 0x09 codec_none
    ∷ signal 0 250 172 168 40 8 53 9 kind_continuous 0x01 codec_none
    ∷ signal 0 250 102 55 8 8 54 24 kind_continuous 0x01 codec_none
    ∷ signal 0 250 105 56 16 8 54 9 kind_continuous 0x01 codec_none
    ∷ signal 0 250 106 57 24 8 54 24 kind_continuous 0x01 codec_none
    ∷ signal 0 64255 173 58 40 16 54 12 kind_continuous 0x09 codec_none
    ∷ signal 0 250 114 5 0 8 55 1 kind_continuous 0x01 codec_none
    ∷ signal 0 250 115 6 8 8 55 0 kind_continuous 0x01 codec_none
    ∷ signal 0 64255 167 7 16 16 55 10 kind_continuous 0x01 codec_none
    ∷ signal 0 64255 168 8 32 16 55 10 kind_continuous 0x01 codec_none
    ∷ signal 0 64255 158 9 48 16 55 10 kind_continuous 0x01 codec_none
    ∷ signal 0 255 930 171 8 8 56 0 kind_enum 0x00 codec_none
    ∷ signal 0 250 116 159 0 8 57 22 kind_continuous 0x01 codec_none
    ∷ signal 0 250 117 160 8 8 57 22 kind_continuous 0x01 codec_none
    ∷ signal 0 250 118 161 16 8 57 22 kind_continuous 0x01 codec_none
    ∷ signal 0 250 96 129 8 8 58 2 kind_continuous 0x01 codec_none
    ∷ signal 0 250 99 130 24 8 58 21 kind_continuous 0x01 codec_none
    ∷ signal 0 64255 169 131 32 16 58 12 kind_continuous 0x09 codec_none
    ∷ signal 0 250 38 132 48 8 58 2 kind_continuous 0x01 codec_none
    ∷ signal 0 3 5179 179 12 2 59 0 kind_boolean 0x00 codec_none
    ∷ []
