-- ===== src/Catalog/Keys.antt =====
-- MID/j1939_signal_definitions.c: the catalog index of each signal key.
use teep_j1939_patent.Base.{ℕ, List, [], ◌∷◌}

-- `J1939_Catalog_Key_To_Index`, for the keys 0 to 179; 0xff stands for no record.
unfoldable pub catalog_key_to_index : List ℕ
catalog_key_to_index =
    0xFF ∷ 130 ∷ 131 ∷ 132 ∷ 84 ∷ 165 ∷ 166 ∷ 167 ∷ 168 ∷ 169 ∷ 102 ∷ 103 ∷ 29 ∷ 30 ∷ 31 ∷ 32 ∷ 115
    ∷ 116 ∷ 122 ∷ 123 ∷ 124 ∷ 125 ∷ 126 ∷ 127 ∷ 62 ∷ 63 ∷ 64 ∷ 65 ∷ 66 ∷ 67 ∷ 68 ∷ 69 ∷ 70 ∷ 120
    ∷ 34 ∷ 60 ∷ 117 ∷ 118 ∷ 43 ∷ 50 ∷ 51 ∷ 153 ∷ 154 ∷ 155 ∷ 156 ∷ 128 ∷ 129 ∷ 52 ∷ 53 ∷ 54 ∷ 111
    ∷ 87 ∷ 88 ∷ 89 ∷ 90 ∷ 161 ∷ 162 ∷ 163 ∷ 164 ∷ 71 ∷ 72 ∷ 73 ∷ 74 ∷ 35 ∷ 36 ∷ 121 ∷ 42 ∷ 58 ∷ 59
    ∷ 93 ∷ 94 ∷ 26 ∷ 27 ∷ 28 ∷ 12 ∷ 13 ∷ 41 ∷ 61 ∷ 86 ∷ 133 ∷ 134 ∷ 135 ∷ 136 ∷ 33 ∷ 3 ∷ 4 ∷ 5 ∷ 6
    ∷ 85 ∷ 137 ∷ 138 ∷ 112 ∷ 113 ∷ 114 ∷ 14 ∷ 15 ∷ 16 ∷ 17 ∷ 18 ∷ 19 ∷ 20 ∷ 21 ∷ 22 ∷ 23 ∷ 24 ∷ 25
    ∷ 40 ∷ 119 ∷ 104 ∷ 105 ∷ 106 ∷ 107 ∷ 108 ∷ 0 ∷ 1 ∷ 95 ∷ 96 ∷ 97 ∷ 98 ∷ 99 ∷ 100 ∷ 101 ∷ 7 ∷ 8
    ∷ 9 ∷ 10 ∷ 11 ∷ 109 ∷ 110 ∷ 174 ∷ 175 ∷ 176 ∷ 177 ∷ 44 ∷ 45 ∷ 46 ∷ 47 ∷ 48 ∷ 49 ∷ 82 ∷ 83 ∷ 2
    ∷ 139 ∷ 140 ∷ 141 ∷ 142 ∷ 143 ∷ 144 ∷ 145 ∷ 146 ∷ 147 ∷ 148 ∷ 149 ∷ 150 ∷ 151 ∷ 152 ∷ 37 ∷ 38
    ∷ 39 ∷ 171 ∷ 172 ∷ 173 ∷ 55 ∷ 56 ∷ 57 ∷ 157 ∷ 158 ∷ 159 ∷ 160 ∷ 91 ∷ 92 ∷ 170 ∷ 75 ∷ 76 ∷ 77
    ∷ 78 ∷ 79 ∷ 80 ∷ 81 ∷ 178 ∷ []
