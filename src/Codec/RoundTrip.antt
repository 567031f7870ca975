-- ===== src/Codec/RoundTrip.antt =====
-- MID/j1939_encode_decode.c: `J1939_Pack_Raw` against the bits of the payload and against
-- `J1939_Unpack_Raw`.
use teep_j1939_patent.Base.{ℕ, ◌+◌, ◌-◌, ◌*◌, ◌/◌, ◌%◌, ◌^◌, ◌≤◌, ◌<◌}
use teep_j1939_patent.Base.{◌≡◌, ◌∙◌, ap, arith, Bool, true, false, List}
use teep_j1939_patent.Base.{none, some, ◌↔◌, ◌≢◌, ◌⊎◌, inl, inr, ltb, ◌!=◌, ◌&&◌, length}
use teep_j1939_patent.Base.{bit_and, ◌>>>◌, digit, Bool-cases, one-le-pow, mod-lt}
use native.Mathlib.Nat.{div-eq_of_lt, mod-eq_of_lt, div-add-mod'}
use native.Mathlib.Decide.{ℕ_discrete}
use teep_j1939_patent.Codec.{payload_bit, raw_field_fits, pack_raw, unpack_raw, write_bits}
use teep_j1939_patent.Codec.{extract_unaligned_bits}
use teep_j1939_patent.Codec.Payload.{AllBytes, length-write_bits, write_bits-AllBytes}
use teep_j1939_patent.Codec.Payload.{payload_bit-write_bits}
use teep_j1939_patent.Codec.Value.{field_value_of_bits}
use teep_j1939_patent.Codec.Value.{digit-shift_test, extract_unaligned_bits_lem}

-- A field of 1 to 32 bits that lies inside `len` bytes.
abbrev pub FieldFits : ℕ → ℕ → ℕ → Type 0
FieldFits len start n = (1 ≤ n) × (n ≤ 32) × (start + n ≤ 8 * len)

pub raw_field_fits-true :
    (len start n : ℕ) → FieldFits len start n → raw_field_fits len start n ≡ true
unfolding raw_field_fits
raw_field_fits-true len start n h = ground arith

pub raw_field_fits-FieldFits :
    (len start n : ℕ) → raw_field_fits len start n ≡ true → FieldFits len start n
unfolding raw_field_fits
raw_field_fits-FieldFits len start n h = ground arith

-- The bits that `pack_raw` takes from the raw value.
abbrev pub raw_bit : ℕ → ℕ → Bool
raw_bit raw i = bit_and (raw >>> i) 1 != 0

too_wide : (raw n : ℕ) → raw < 2 ^ n → (ltb n 32 && (raw >>> n != 0)) ≡ false
too_wide raw n h = ground (arith, div-eq_of_lt h)

too_wide_true :
    (raw n : ℕ) → ¬ (raw < 2 ^ n) → n ≤ 32 → raw < 2 ^ 32 → (ltb n 32 && (raw >>> n != 0)) ≡ true
too_wide_true raw n wide small h = elim (ℕ_discrete n 32) [
  | yes e ↦ absurd (wide (rw e h))
  | no ne ↦
      let q_pos : raw / 2 ^ n ≢ 0 = λ q. wide (
        omega (
          arith,
          div-add-mod' raw (2 ^ n),
          ap (λ (t : ℕ). t * 2 ^ n) q,
          mod-lt raw (one-le-pow n 2 (omega arith)),
        )) in
      ground arith
]

-- `raw < 2 ^ 32` is what the parameter's type gives.
pub pack_raw-some :
    (payload : List ℕ) (len start n raw : ℕ)
    → FieldFits len start n
    → raw < 2 ^ n
    → pack_raw payload len start n raw ≡ some (write_bits (raw_bit raw) start n 0 payload)
unfolding pack_raw
pack_raw-some payload len start n raw fits h =
    rw (raw_field_fits-true len start n fits, too_wide raw n h)

-- The packed value is read back, the length and the byte range are kept, and every bit outside
-- the field keeps its value.
pub record IsPacked (payload : List ℕ) (start n raw : ℕ) (out : List ℕ) : Type 0 where
  pub same_length : length out ≡ length payload
  pub bytes : AllBytes out
  pub reads_back : unpack_raw out (length out) start n ≡ some raw
  pub outside : (p : ℕ) → (p < start) ⊎ (start + n ≤ p) → payload_bit out p ≡ payload_bit payload p

reads_back_lem :
    (payload : List ℕ) (start n raw : ℕ)
    → AllBytes payload
    → FieldFits (length payload) start n
    → raw < 2 ^ n
    → extract_unaligned_bits (write_bits (raw_bit raw) start n 0 payload) start n ≡ raw
reads_back_lem payload start n raw h fits small =
    extract_unaligned_bits_lem out start n
    ∙ field_value_of_bits (λ j. payload_bit out (start + j)) raw n written
    ∙ mod-eq_of_lt small
  where
    out : List ℕ
    out = write_bits (raw_bit raw) start n 0 payload

    here : (j : ℕ) → j < n → payload_bit out (start + j) ≡ raw_bit raw j
    here j p =
        let at : start + j - start ≡ j = omega arith in
        let bits =
          payload_bit-write_bits (raw_bit raw) start n 0 payload (start + j) h (omega arith) in
        ground (arith, bits, ap (raw_bit raw) at)

    written : (j : ℕ) → j < n → digit (payload_bit out (start + j)) ≡ raw / 2 ^ j % 2
    written j p = ap digit (here j p) ∙ digit-shift_test raw j

-- `J1939_Pack_Raw` on a field inside the payload and a value that fits the field succeeds:
-- `J1939_Unpack_Raw` reads the value back, the payload keeps its length and stays a list of
-- bytes, and no bit outside the field changes.
pub pack_raw-IsPacked :
    (payload : List ℕ) (start n raw : ℕ)
    → AllBytes payload
    → FieldFits (length payload) start n
    → raw < 2 ^ n
    → (out : List ℕ) × (pack_raw payload (length payload) start n raw ≡ some out)
      × IsPacked payload start n raw out
pack_raw-IsPacked payload start n raw h fits small = (
  out,
  pack_raw-some payload (length payload) start n raw fits small,
  record {
    same_length = length-write_bits (raw_bit raw) start n 0 payload;
    bytes = write_bits-AllBytes (raw_bit raw) start n 0 payload h;
    reads_back = reads;
    outside = λ p away.
        ground (arith, payload_bit-write_bits (raw_bit raw) start n 0 payload p h (omega arith));
  },
)
  where
    out : List ℕ
    out = write_bits (raw_bit raw) start n 0 payload

    reads : unpack_raw out (length out) start n ≡ some raw
    reads =
        unfold unpack_raw in
        rw (
          length-write_bits (raw_bit raw) start n 0 payload,
          raw_field_fits-true (length payload) start n fits,
          reads_back_lem payload start n raw h fits small,
        )

-- `J1939_Pack_Raw` refuses exactly what does not fit: a field of no bits, of more than 32, or that
-- leaves the buffer, or a value too large for its field. `raw` is any `uint32_t`.
pub pack_raw-none_iff :
    (payload : List ℕ) (len start n raw : ℕ)
    → raw < 2 ^ 32
    → (pack_raw payload len start n raw ≡ none) ↔ ¬ (FieldFits len start n × (raw < 2 ^ n))
pack_raw-none_iff payload len start n raw h = (refused, refuses)
  where
    refused : pack_raw payload len start n raw ≡ none → ¬ (FieldFits len start n × (raw < 2 ^ n))
    refused e both = ground (arith, pack_raw-some payload len start n raw both.0 both.1)

    refuses : ¬ (FieldFits len start n × (raw < 2 ^ n)) → pack_raw payload len start n raw ≡ none
    refuses no_fit = elim (Bool-cases (raw_field_fits len start n)) [
      | inl fits ↦
          let placed = raw_field_fits-FieldFits len start n fits in
          unfold pack_raw in
          rw (fits, too_wide_true raw n (λ small. no_fit (placed, small)) placed.1 h)
      | inr misplaced ↦ unfold pack_raw in rw misplaced
    ]
