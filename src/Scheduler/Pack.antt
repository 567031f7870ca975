-- ===== src/Scheduler/Pack.antt =====
-- MID/j1939_tx_scheduler.c: the payload of a PGN from the active values. In the default build no
-- waveform is registered, so a signal without a stored value is skipped.
use teep_j1939_patent.Base.{ℕ, zero, suc, ◌+◌, ◌-◌, ◌/◌, List, ◌∷◌, ◌++◌, Bool, true, false}
use teep_j1939_patent.Base.{
  Option, none, some, take, drop, ltb, leb, ◌!=◌, if◌then◌else◌, u8, u16, bit_and,
}
use teep_j1939_patent.Catalog.{CatalogSignal, CatalogPgn, signal_at, pgn_variable_length}
use teep_j1939_patent.Codec.{pack_raw}
use teep_j1939_patent.ValueStore.{Store, get_raw, get_blob}

abbrev pub vin_tx_bytes : ℕ
vin_tx_bytes = 21

abbrev pub vin_terminator : ℕ
vin_terminator = b'*'

-- `prv_pack_text`; the list is the blob's bytes, of which `text_length` count.
unfoldable pub pack_text : List ℕ → ℕ → CatalogSignal → List ℕ → ℕ → Option (List ℕ)
pack_text payload length sig text text_length =
    let offset = u16 (sig.start_bit / 8) in
    let room = u16 (length - offset) - 1 in
    let count = if ltb text_length room then text_length else room in
    if leb length offset
    then none
    else some (
        take offset payload
        ++ take count text
        ++ vin_terminator ∷ drop (offset + count + 1) payload)

-- `prv_tx_length`
unfoldable pub tx_length : CatalogPgn → ℕ
tx_length pgn =
    if bit_and pgn.flags pgn_variable_length != 0 then vin_tx_bytes else pgn.payload_length

-- `packed_any` and the payload after an attempt to write a signal.
abbrev pub packed : Option (List ℕ) → List ℕ × Bool → List ℕ × Bool
packed (some payload) before = (payload, true)
packed none before = before

-- One turn of the loop of `prv_pack_pgn`.
unfoldable pub pack_signal : Store → ℕ → ℕ → List ℕ × Bool → List ℕ × Bool
pack_signal store length i before =
    let sig = signal_at i in
    elim (get_raw store i) [
      | some raw ↦ packed (pack_raw before.0 length sig.start_bit (u8 sig.bit_length) raw) before
      | none ↦ elim (get_blob store i) [
        | some (blob, blob_length) ↦ packed (pack_text before.0 length sig blob blob_length) before
        | none ↦ before
      ]
    ]

-- The loop: `left` signals from `i` on.
unfoldable pub pack_signals : Store → ℕ → ℕ → ℕ → List ℕ × Bool → List ℕ × Bool
pack_signals store length zero i before = before
pack_signals store length (suc left) i before =
    pack_signals store length left (i + 1) (pack_signal store length i before)

-- `prv_pack_pgn`: the payload and whether a signal went into it.
unfoldable pub pack_pgn : Store → CatalogPgn → List ℕ → ℕ → List ℕ × Bool
pack_pgn store pgn payload length =
    pack_signals store length pgn.signal_count pgn.first_signal (payload, false)
