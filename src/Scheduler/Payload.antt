-- ===== src/Scheduler/Payload.antt =====
-- MID/j1939_tx_scheduler.c: the payload of a short PGN carries every active value.
use teep_j1939_patent.Base.{
  ℕ, zero, suc, ◌+◌, ◌-◌, ◌^◌, ◌≤◌, ◌<◌, ◌≡◌, refl, sym, ap, ◌∙◌, subst, ◌⊎◌, arith, inl, inr,
}
use teep_j1939_patent.Base.{List, length, Bool, true, false, none, some, Option-cases, u8}
use teep_j1939_patent.Catalog.{signal_at, pgn_at, is_blob_signal}
use teep_j1939_patent.Catalog.WellFormed.{signal-IsWellFormed}
use teep_j1939_patent.Catalog.Ranges.{InRange, pgn_index-InRange, range-in_catalog, fields_apart}
use teep_j1939_patent.Codec.{
  pack_raw, unpack_raw, payload_bit, initialize_payload, extract_unaligned_bits,
}
use teep_j1939_patent.Codec.Payload.{AllBytes}
use teep_j1939_patent.Codec.Value.{field_value_ext, extract_unaligned_bits_lem}
use teep_j1939_patent.Codec.RoundTrip.{FieldFits, pack_raw-IsPacked}
use teep_j1939_patent.ValueStore.{
  Store, active, get_raw, get_blob, is_active, record_status, check_index,
}
use teep_j1939_patent.ValueStore.Publish.{IsCommitted}
use teep_j1939_patent.Scheduler.Pack.{pack_signal, pack_signals, pack_pgn}

-- A payload of 8 bytes.
pub record IsFrame (payload : List ℕ) : Type 0 where
  pub bytes : AllBytes payload
  pub eight : length payload ≡ 8

-- PGN `k` fits a single frame.
abbrev pub IsShort : ℕ → Type 0
IsShort k = (pgn_at k).payload_length ≤ 8

-- A signal of a short PGN is a scalar whose field lies in the 8 bytes.
short_field :
    (k i : ℕ)
    → IsShort k
    → InRange k i
    → (is_blob_signal (signal_at i) ≡ false)
      × FieldFits 8 (signal_at i).start_bit (signal_at i).bit_length
short_field k i short r =
    let w = signal-IsWellFormed i (range-in_catalog k i r) in
    let own = ap (λ p. (pgn_at p).payload_length) (pgn_index-InRange k i r) in
    let scalar : is_blob_signal (signal_at i) ≡ false =
      ground (arith, w.blob_bytes, w.in_payload, own) in
    (scalar, omega (arith, w.scalar_width scalar, w.in_payload, own))

raw_fits :
    (s : Store) (k i raw : ℕ)
    → IsCommitted (active s)
    → IsShort k
    → InRange k i
    → get_raw s i ≡ some raw
    → raw < 2 ^ (signal_at i).bit_length
unfolding get_raw is_active record_status check_index
raw_fits s k i raw c short r h =
    let w = signal-IsWellFormed i (range-in_catalog k i r) in
    let scalar = (short_field k i short r).0 in
    ground (arith, w.scalar_fits scalar, c.records i, scalar)

no_blob : (s : Store) (k i : ℕ) → IsShort k → InRange k i → get_raw s i ≡ none → get_blob s i ≡ none
unfolding get_raw get_blob is_active
no_blob s k i short r h = let scalar = (short_field k i short r).0 in ground (arith, scalar, h)

-- What one turn of the loop leaves.
record IsWritten (s : Store) (i : ℕ) (payload out : List ℕ) : Type 0 where
  frame : IsFrame out
  lower : (p : ℕ) → p < (signal_at i).start_bit → payload_bit out p ≡ payload_bit payload p
  reads :
      (raw : ℕ)
      → get_raw s i ≡ some raw
      → unpack_raw out 8 (signal_at i).start_bit (signal_at i).bit_length ≡ some raw

pack_signal-none :
    (s : Store) (k i : ℕ) (before : List ℕ × Bool)
    → IsShort k
    → InRange k i
    → get_raw s i ≡ none
    → pack_signal s 8 i before ≡ before
unfolding pack_signal
pack_signal-none s k i before short r h = rw (pack_signal, h, no_blob s k i short r h) refl

pack_signal-some :
    (s : Store) (i raw : ℕ) (before : List ℕ × Bool) (out : List ℕ)
    → get_raw s i ≡ some raw
    → (signal_at i).bit_length ≤ 32
    → pack_raw before.0 8 (signal_at i).start_bit (signal_at i).bit_length raw ≡ some out
    → pack_signal s 8 i before ≡ (out, true)
unfolding pack_signal
pack_signal-some s i raw before out h small e =
    let whole : u8 (signal_at i).bit_length ≡ (signal_at i).bit_length = omega arith in
    rw (pack_signal, h, whole, e) refl

pack_signal-IsWritten :
    (s : Store) (k i : ℕ) (before : List ℕ × Bool)
    → IsCommitted (active s)
    → IsShort k
    → InRange k i
    → IsFrame before.0
    → IsWritten s i before.0 (pack_signal s 8 i before).0
pack_signal-IsWritten s k i before c short r f = elim (Option-cases (get_raw s i)) [
  | inl unset ↦ rw (pack_signal-none s k i before short r unset) (record {
    frame = f;
    lower = λ p h. refl;
    reads = λ raw h. absurd (ground (arith, unset, h));
  })
  | inr (raw, e) ↦
      let sig = signal_at i in
      let fits = (short_field k i short r).1 in
      let here : FieldFits (length before.0) sig.start_bit sig.bit_length =
        omega (arith, fits, f.eight) in
      let (out, ok, p) =
        pack_raw-IsPacked before.0 sig.start_bit sig.bit_length raw f.bytes here
          (raw_fits s k i raw c short r e) in
      let at_8 =
        ap (λ n. pack_raw before.0 n sig.start_bit sig.bit_length raw) (sym f.eight) ∙ ok in
      let eight : length out ≡ 8 = p.same_length ∙ f.eight in
      rw (pack_signal-some s i raw before out e (omega (arith, fits)) at_8) (record {
        frame = record { bytes = p.bytes; eight = eight };
        lower = λ q h. p.outside q (inl h);
        reads = λ raw' h.
            ap (λ n. unpack_raw out n sig.start_bit sig.bit_length) (sym eight)
            ∙ p.reads_back
            ∙ sym e
            ∙ h;
      })
]

-- Two payloads that agree on a field give the same value.
unpack_raw-same_field :
    (xs ys : List ℕ) (start n : ℕ)
    → ((p : ℕ) → p < start + n → payload_bit xs p ≡ payload_bit ys p)
    → unpack_raw xs 8 start n ≡ unpack_raw ys 8 start n
unfolding unpack_raw
unpack_raw-same_field xs ys start n same =
    let value : extract_unaligned_bits xs start n ≡ extract_unaligned_bits ys start n =
      extract_unaligned_bits_lem xs start n
      ∙ field_value_ext (λ j. payload_bit xs (start + j)) (λ j. payload_bit ys (start + j)) n
          (λ j h. same (start + j) (omega arith))
      ∙ sym (extract_unaligned_bits_lem ys start n) in
    rw value refl

-- The signals from `i` on belong to PGN `k`.
InPgn : ℕ → ℕ → ℕ → Type 0
InPgn k i left = (j : ℕ) → i ≤ j → j < i + left → InRange k j

pack_signals-keeps :
    (s : Store) (k left i b : ℕ) (before : List ℕ × Bool)
    → IsCommitted (active s)
    → IsShort k
    → InPgn k i left
    → ((j : ℕ) → i ≤ j → j < i + left → b ≤ (signal_at j).start_bit)
    → IsFrame before.0
    → (p : ℕ) → p < b
    → payload_bit (pack_signals s 8 left i before).0 p ≡ payload_bit before.0 p
unfolding pack_signals InPgn
pack_signals-keeps s k zero i b before c short all above f p h = refl
pack_signals-keeps s k (suc left) i b before c short all above f p h =
    let w = pack_signal-IsWritten s k i before c short (all i (omega arith) (omega arith)) f in
    let start = above i (omega arith) (omega arith) in
    pack_signals-keeps s k left (i + 1) b (pack_signal s 8 i before) c short
      (λ j lo hi. all j (omega arith) (omega arith))
      (λ j lo hi. above j (omega arith) (omega arith)) w.frame p h
    ∙ w.lower p (omega (arith, start, h))

pack_signals-reads :
    (s : Store) (k left i j raw : ℕ) (before : List ℕ × Bool)
    → IsCommitted (active s)
    → IsShort k
    → InPgn k i left
    → IsFrame before.0
    → i ≤ j
    → j < i + left
    → get_raw s j ≡ some raw
    → unpack_raw
        (pack_signals s 8 left i before).0
        8
        (signal_at j).start_bit
        (signal_at j).bit_length
      ≡ some raw
unfolding pack_signals InPgn
pack_signals-reads s k zero i j raw before c short all f lo hi h = absurd (omega (arith, lo, hi))
pack_signals-reads s k (suc left) i j raw before c short all f lo hi h =
    let r = all i (omega arith) (omega arith) in
    let w = pack_signal-IsWritten s k i before c short r f in
    let next = pack_signal s 8 i before in
    let later : InPgn k (i + 1) left = λ m from below. all m (omega arith) (omega arith) in
    elim (at_or_after i j lo) [
      | inl here ↦
          let kept =
            pack_signals-keeps s k left (i + 1) ((signal_at i).start_bit + (signal_at i).bit_length)
              next c short later
              (λ m from below. fields_apart k i (m - i - 1) m r (later m from below) (omega arith))
              w.frame in
          subst
            (λ n.
              unpack_raw (pack_signals s 8 left (i + 1) next).0 8 (signal_at n).start_bit
                (signal_at n).bit_length
              ≡ some raw)
            here
            (unpack_raw-same_field (pack_signals s 8 left (i + 1) next).0 next.0
                (signal_at i).start_bit (signal_at i).bit_length kept
              ∙ w.reads raw (subst (λ n. get_raw s n ≡ some raw) (sym here) h))
      | inr after ↦
          pack_signals-reads s k left (i + 1) j raw next c short later w.frame (omega arith)
            (omega arith) h
    ]
  where
    at_or_after : (m n : ℕ) → m ≤ n → (m ≡ n) ⊎ (m < n)
    at_or_after m n h = omega arith

initialize_payload-IsFrame : IsFrame initialize_payload
unfolding initialize_payload
initialize_payload-IsFrame = record { bytes = omega arith; eight = refl }

-- What the scheduler packs for a PGN of at most 8 bytes from a store whose active bank passed its
-- commit: a receiver that unpacks any signal of the PGN that has a stored value reads that value.
pub pack_pgn-reads :
    (s : Store) (k i raw : ℕ)
    → IsCommitted (active s)
    → IsShort k
    → InRange k i
    → get_raw s i ≡ some raw
    → unpack_raw
        (pack_pgn s (pgn_at k) initialize_payload 8).0
        8
        (signal_at i).start_bit
        (signal_at i).bit_length
      ≡ some raw
unfolding pack_pgn InPgn
pack_pgn-reads s k i raw c short r h =
    pack_signals-reads s k (pgn_at k).signal_count (pgn_at k).first_signal i raw
      (initialize_payload, false) c short (λ j lo hi. record { pgn = r.pgn; from = lo; below = hi })
      initialize_payload-IsFrame r.from r.below h
