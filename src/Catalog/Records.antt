-- ===== src/Catalog/Records.antt =====
-- MID/j1939_signal_definitions.h: the record types of the generated catalog and its constants.
use teep_j1939_patent.Base.{ℕ}

abbrev pub catalog_signal_count : ℕ
catalog_signal_count = 179

abbrev pub catalog_pgn_count : ℕ
catalog_pgn_count = 60

abbrev pub active_mask_bytes : ℕ
active_mask_bytes = 23

abbrev pub max_payload_bytes : ℕ
max_payload_bytes = 200

abbrev pub key_min : ℕ
key_min = 1

abbrev pub key_max : ℕ
key_max = 179

abbrev pub index_invalid : ℕ
index_invalid = 0xffff

abbrev pub catalog_crc32 : ℕ
catalog_crc32 = 0xf155_bbf0

abbrev pub tx_periodic : ℕ
tx_periodic = 0

abbrev pub tx_on_change : ℕ
tx_on_change = 1

abbrev pub tx_engine_speed_dependent : ℕ
tx_engine_speed_dependent = 2

abbrev pub tx_on_request : ℕ
tx_on_request = 3

abbrev pub kind_continuous : ℕ
kind_continuous = 0

abbrev pub kind_boolean : ℕ
kind_boolean = 1

abbrev pub kind_enum : ℕ
kind_enum = 2

abbrev pub kind_blob : ℕ
kind_blob = 3

abbrev pub codec_none : ℕ
codec_none = 0

abbrev pub codec_ascii_blob : ℕ
codec_ascii_blob = 1

-- `J1939_CAT_SIG_BLOB`
abbrev pub sig_blob : ℕ
sig_blob = 0x02

abbrev pub pgn_requires_tp : ℕ
pgn_requires_tp = 0x01

abbrev pub pgn_variable_length : ℕ
pgn_variable_length = 0x02

-- `J1939_Catalog_Signal_t`
pub record CatalogSignal : Type 0 where
  pub raw_min : ℕ
  pub raw_max : ℕ
  pub spn : ℕ
  pub signal_key : ℕ
  pub start_bit : ℕ
  pub bit_length : ℕ
  pub pgn_index : ℕ
  pub scale_index : ℕ
  pub control_kind : ℕ
  pub flags : ℕ
  pub special_codec : ℕ

-- `J1939_Catalog_PGN_t`
pub record CatalogPgn : Type 0 where
  pub pgn : ℕ
  pub first_signal : ℕ
  pub payload_length : ℕ
  pub period_ms : ℕ
  pub min_interval_ms : ℕ
  pub signal_count : ℕ
  pub priority : ℕ
  pub source_address : ℕ
  pub transmission_mode : ℕ
  pub flags : ℕ
  pub change_threshold_pct : ℕ

-- A table row, column by column.
abbrev pub signal : ℕ → ℕ → ℕ → ℕ → ℕ → ℕ → ℕ → ℕ → ℕ → ℕ → ℕ → CatalogSignal
signal lo hi spn key start bits pgn scale kind flags codec = record {
  raw_min = lo;
  raw_max = hi;
  spn = spn;
  signal_key = key;
  start_bit = start;
  bit_length = bits;
  pgn_index = pgn;
  scale_index = scale;
  control_kind = kind;
  flags = flags;
  special_codec = codec;
}

abbrev pub pgn_record : ℕ → ℕ → ℕ → ℕ → ℕ → ℕ → ℕ → ℕ → ℕ → ℕ → ℕ → CatalogPgn
pgn_record pgn first bytes period gap count priority source mode flags threshold = record {
  pgn = pgn;
  first_signal = first;
  payload_length = bytes;
  period_ms = period;
  min_interval_ms = gap;
  signal_count = count;
  priority = priority;
  source_address = source;
  transmission_mode = mode;
  flags = flags;
  change_threshold_pct = threshold;
}

-- What an index out of the table would read; no caller reads it.
abbrev pub no_signal : CatalogSignal
no_signal = signal 0 0 0 0 0 0 0 0 0 0 0

abbrev pub no_pgn : CatalogPgn
no_pgn = pgn_record 0 0 0 0 0 0 0 0 0 0 0
