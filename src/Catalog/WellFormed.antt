-- ===== src/Catalog/WellFormed.antt =====
-- MID/j1939_signal_definitions.c: what the generated tables guarantee the code that reads them.
-- Each fact is one evaluation over the whole table.
use teep_j1939_patent.Base.{ℕ, suc, ◌+◌, ◌-◌, ◌*◌, ◌^◌, ◌≤◌, ◌<◌, ◌≡◌, refl, arith}
use teep_j1939_patent.Base.{Bool, true, false, not, ◌&&◌, ◌||◌, ltb, leb, ◌==◌, ◌!=◌}
use teep_j1939_patent.Base.{all_below, all_below_sound}
use teep_j1939_patent.Catalog.Records.{catalog_signal_count, catalog_pgn_count, key_min, key_max}
use teep_j1939_patent.Catalog.Records.{index_invalid, max_payload_bytes}
use teep_j1939_patent.Catalog.Signals.{catalog_signals}
use teep_j1939_patent.Catalog.Pgns.{catalog_pgns}
use teep_j1939_patent.Catalog.Keys.{catalog_key_to_index}
use teep_j1939_patent.Catalog.Lookup.{signal_at, pgn_at, is_blob_signal, index_from_key}

-- A record that every user of the catalog may rely on.
pub record IsWellFormed (i : ℕ) : Type 0 where
  pub pgn_exists : (signal_at i).pgn_index < catalog_pgn_count
  pub first : (pgn_at (signal_at i).pgn_index).first_signal ≤ i
  pub last :
      i
      < (pgn_at (signal_at i).pgn_index).first_signal
        + (pgn_at (signal_at i).pgn_index).signal_count
  pub in_payload :
      (signal_at i).start_bit + (signal_at i).bit_length
      ≤ 8 * (pgn_at (signal_at i).pgn_index).payload_length
  pub bounds : (signal_at i).raw_min ≤ (signal_at i).raw_max
  pub scalar_width :
      is_blob_signal (signal_at i) ≡ false
      → (1 ≤ (signal_at i).bit_length) × ((signal_at i).bit_length ≤ 32)
  pub scalar_fits :
      is_blob_signal (signal_at i) ≡ false → (signal_at i).raw_max < 2 ^ (signal_at i).bit_length
  pub blob_bytes :
      is_blob_signal (signal_at i) ≡ true
      → ((signal_at i).raw_max < 256) × ((signal_at i).bit_length ≡ 8 * max_payload_bytes)
  pub key_found : index_from_key (signal_at i).signal_key ≡ i

well_formed_row : ℕ → Bool
well_formed_row i =
    let s = signal_at i in
    let p = pgn_at s.pgn_index in
    ltb s.pgn_index catalog_pgn_count
    && leb p.first_signal i
    && ltb i (p.first_signal + p.signal_count)
    && leb (s.start_bit + s.bit_length) (8 * p.payload_length)
    && leb s.raw_min s.raw_max
    && (is_blob_signal s || (leb 1 s.bit_length && leb s.bit_length 32))
    && (is_blob_signal s || ltb s.raw_max (2 ^ s.bit_length))
    && (not (is_blob_signal s) || (ltb s.raw_max 256 && (s.bit_length == 8 * max_payload_bytes)))
    && (index_from_key s.signal_key == i)

well_formed_table : all_below catalog_signal_count well_formed_row ≡ true
unfolding well_formed_row all_below signal_at pgn_at index_from_key catalog_signals catalog_pgns
    catalog_key_to_index
well_formed_table = refl

-- Every record of the catalog: its PGN exists and its index lies in that PGN's range, its field
-- lies inside the PGN's payload, its bounds are in order; a scalar has 1 to 32 bits that hold its
-- largest raw value, a blob holds 200 bytes; and its key leads back to it.
pub signal-IsWellFormed : (i : ℕ) → i < catalog_signal_count → IsWellFormed i
unfolding well_formed_row
signal-IsWellFormed i h =
    let row = all_below_sound catalog_signal_count well_formed_row i well_formed_table h in
    ground arith

key_row : ℕ → Bool
key_row key =
    ltb key key_min
    || (ltb (index_from_key key) catalog_signal_count
        && ((signal_at (index_from_key key)).signal_key == key))

key_table : all_below (suc key_max) key_row ≡ true
unfolding key_row all_below signal_at index_from_key catalog_signals catalog_key_to_index
key_table = refl

-- `J1939_Catalog_Index_From_Key` finds the record of every key from 1 to 179, and answers
-- `J1939_CATALOG_INDEX_INVALID` for any other.
pub index_from_key_lem :
    (key : ℕ)
    → (key_min ≤ key
        → key ≤ key_max
        → (index_from_key key < catalog_signal_count)
          × ((signal_at (index_from_key key)).signal_key ≡ key))
      × (key < key_min → index_from_key key ≡ index_invalid)
      × (key_max < key → index_from_key key ≡ index_invalid)
index_from_key_lem key = (
  λ lo hi.
      let row = all_below_sound (suc key_max) key_row key key_table (omega arith) in
      unfold key_row in ground arith,
  λ lo. unfold index_from_key in ground arith,
  λ hi. unfold index_from_key in ground arith,
)

neighbour_row : ℕ → Bool
neighbour_row i =
    let s = signal_at i in
    let t = signal_at (suc i) in
    (s.pgn_index != t.pgn_index) || leb (s.start_bit + s.bit_length) t.start_bit

neighbour_table : all_below (catalog_signal_count - 1) neighbour_row ≡ true
unfolding neighbour_row all_below signal_at catalog_signals
neighbour_table = refl

-- Neighbouring records of one PGN do not overlap.
pub neighbours_disjoint :
    (i : ℕ)
    → suc i < catalog_signal_count
    → (signal_at i).pgn_index ≡ (signal_at (suc i)).pgn_index
    → (signal_at i).start_bit + (signal_at i).bit_length ≤ (signal_at (suc i)).start_bit
unfolding neighbour_row
neighbours_disjoint i h same =
    let row =
      all_below_sound (catalog_signal_count - 1) neighbour_row i neighbour_table (omega arith) in
    ground arith

pgn_row : ℕ → Bool
pgn_row k =
    let p = pgn_at k in
    leb p.payload_length max_payload_bytes
    && leb 1 p.payload_length
    && ltb p.priority 8
    && ltb p.source_address 256
    && leb (p.first_signal + p.signal_count) catalog_signal_count
    && ltb p.period_ms 65536

pgn_table : all_below catalog_pgn_count pgn_row ≡ true
unfolding pgn_row all_below pgn_at catalog_pgns
pgn_table = refl

pub record IsUsable (k : ℕ) : Type 0 where
  pub length_fits : (pgn_at k).payload_length ≤ max_payload_bytes
  pub length_pos : 1 ≤ (pgn_at k).payload_length
  pub priority_fits : (pgn_at k).priority < 8
  pub source_fits : (pgn_at k).source_address < 256
  pub range_fits : (pgn_at k).first_signal + (pgn_at k).signal_count ≤ catalog_signal_count
  pub period_fits : (pgn_at k).period_ms < 65536

pub pgn_at-IsUsable : (k : ℕ) → k < catalog_pgn_count → IsUsable k
unfolding pgn_row
pgn_at-IsUsable k h =
    let row = all_below_sound catalog_pgn_count pgn_row k pgn_table h in ground arith
