-- ===== src/Scheduler/Lengths.antt =====
-- MID/j1939_tx_scheduler.c: packing a PGN never changes the size of the buffer.
use teep_j1939_patent.Base.{ℕ, zero, suc, ◌+◌, ◌-◌, ◌/◌, ◌≤◌, ◌≡◌, refl, sym, subst, ◌∙◌, arith}
use teep_j1939_patent.Base.{
  List, ◌∷◌, ◌++◌, length, take, drop, Bool, false, Option, none, some, inl, inr, Option-cases,
}
use teep_j1939_patent.Base.{length-append, length-take, length-drop, u8, u16, ltb, if◌then◌else◌}
use teep_j1939_patent.Catalog.{CatalogSignal, CatalogPgn, signal_at}
use teep_j1939_patent.Codec.{pack_raw}
use teep_j1939_patent.Codec.RoundTrip.{raw_bit}
use teep_j1939_patent.Codec.Payload.{length-write_bits}
use teep_j1939_patent.ValueStore.{Store, active, get_raw, get_blob}
use teep_j1939_patent.Scheduler.Pack.{
  vin_terminator, packed, pack_text, pack_signal, pack_signals, pack_pgn,
}

length-pack_raw :
    (payload : List ℕ) (len start n raw : ℕ) (out : List ℕ)
    → pack_raw payload len start n raw ≡ some out
    → length out ≡ length payload
unfolding pack_raw
length-pack_raw payload len start n raw out h =
    ground (arith, h, length-write_bits (raw_bit raw) start n 0 payload)

length-overwrite :
    (payload text : List ℕ) (offset count last : ℕ)
    → offset + count + 1 ≤ length payload
    → count ≤ length text
    → length (take offset payload ++ take count text ++ last ∷ drop (offset + count + 1) payload)
      ≡ length payload
length-overwrite payload text offset count last fits long = omega (
  arith,
  length-append (take offset payload ++ take count text) (last ∷ drop (offset + count + 1) payload),
  length-append (take offset payload) (take count text),
  length-take offset payload,
  length-take count text,
  length-drop (offset + count + 1) payload,
)

length-pack_text :
    (payload : List ℕ) (len : ℕ) (sig : CatalogSignal) (text : List ℕ) (text_length : ℕ)
    (out : List ℕ)
    → len ≤ length payload
    → len ≤ 200
    → 200 ≤ length text
    → pack_text payload len sig text text_length ≡ some out
    → length out ≡ length payload
unfolding pack_text
length-pack_text payload len sig text text_length out fits small long h =
    let offset = u16 (sig.start_bit / 8) in
    let room = u16 (len - offset) - 1 in
    let count = if ltb text_length room then text_length else room in
    let kept = length-overwrite payload text offset count vin_terminator in ground (arith, h, kept)

-- The active blob of a store has its 200 bytes.
abbrev pub HasBlob : Store → Type 0
HasBlob s = 200 ≤ length (active s).blob

get_blob-active :
    (s : Store) (i : ℕ) (blob : List ℕ) (n : ℕ)
    → get_blob s i ≡ some (blob, n)
    → blob ≡ (active s).blob
unfolding get_blob
get_blob-active s i blob n h = ground (arith, h)

length-packed :
    (payload : Option (List ℕ)) (before : List ℕ × Bool)
    → ((out : List ℕ) → payload ≡ some out → length out ≡ length before.0)
    → length (packed payload before).0 ≡ length before.0
length-packed none before h = refl
length-packed (some out) before h = h out refl

length-pack_signal :
    (s : Store) (len i : ℕ) (before : List ℕ × Bool)
    → HasBlob s
    → len ≤ length before.0
    → len ≤ 200
    → length (pack_signal s len i before).0 ≡ length before.0
unfolding pack_signal
length-pack_signal s len i before long fits small = elim (Option-cases (get_raw s i)) [
  | inr (raw, e) ↦
      rw (e, pack_signal)
        (length-packed
          (pack_raw before.0 len (signal_at i).start_bit (u8 (signal_at i).bit_length) raw) before
          (λ out h.
            length-pack_raw before.0 len (signal_at i).start_bit (u8 (signal_at i).bit_length) raw
              out h))
  | inl e ↦ elim (Option-cases (get_blob s i)) [
    | inl none_ ↦ rw (e, none_, pack_signal) refl
    | inr ((blob, n), b) ↦
        rw (e, b, pack_signal)
          (length-packed (pack_text before.0 len (signal_at i) blob n) before (λ out h.
            length-pack_text before.0 len (signal_at i) blob n out fits small
              (subst (λ t. 200 ≤ length t) (sym (get_blob-active s i blob n b)) long) h))
  ]
]

length-pack_signals :
    (s : Store) (len left i : ℕ) (before : List ℕ × Bool)
    → HasBlob s
    → len ≤ length before.0
    → len ≤ 200
    → length (pack_signals s len left i before).0 ≡ length before.0
unfolding pack_signals
length-pack_signals s len zero i before long fits small = refl
length-pack_signals s len (suc left) i before long fits small =
    let one = length-pack_signal s len i before long fits small in
    length-pack_signals s len left (i + 1) (pack_signal s len i before) long
      (omega (arith, one, fits)) small
    ∙ one

-- Packing at most 200 bytes of a buffer that has them never changes the buffer's size.
pub length-pack_pgn :
    (s : Store) (pgn : CatalogPgn) (payload : List ℕ) (len : ℕ)
    → HasBlob s
    → len ≤ length payload
    → len ≤ 200
    → length (pack_pgn s pgn payload len).0 ≡ length payload
unfolding pack_pgn
length-pack_pgn s pgn payload len long fits small =
    length-pack_signals s len pgn.signal_count pgn.first_signal (payload, false) long fits small
