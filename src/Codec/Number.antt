-- ===== src/Codec/Number.antt =====
-- A payload as one little-endian number: what a field is, said without loops.
use teep_j1939_patent.Base.{ℕ, zero, suc, ◌+◌, ◌-◌, ◌*◌, ◌/◌, ◌%◌, ◌^◌, ◌<◌}
use teep_j1939_patent.Base.{◌≡◌, ◌∙◌, ap, sym, arith, List, [], ◌∷◌, some, length}
use teep_j1939_patent.Base.{digit, digit-bit_test}
use teep_j1939_patent.Base.{pow-add, div-div-eq-div-mul}
use native.Mathlib.Decide.{dec_lt}
use native.Mathlib.Nat.{zero-div}
use teep_j1939_patent.Codec.{payload_bit, unpack_raw}
use teep_j1939_patent.Codec.Payload.{AllBytes}
use teep_j1939_patent.Codec.Value.{field_value, field_value_of_bits, extract_unaligned_bits_lem}
use teep_j1939_patent.Codec.RoundTrip.{FieldFits, raw_field_fits-true}

abbrev pub le_number : List ℕ → ℕ
le_number [] = 0
le_number (b ∷ bs) = b + 256 * le_number bs

-- What lies above a byte does not show in its bits.
pub byte_low : (b r k : ℕ) → k < 8 → (b + 256 * r) / 2 ^ k % 2 ≡ b / 2 ^ k % 2
byte_low b r zero h = omega arith
byte_low b r (suc zero) h = omega arith
byte_low b r (suc (suc zero)) h = omega arith
byte_low b r (suc (suc (suc zero))) h = omega arith
byte_low b r (suc (suc (suc (suc zero)))) h = omega arith
byte_low b r (suc (suc (suc (suc (suc zero))))) h = omega arith
byte_low b r (suc (suc (suc (suc (suc (suc zero)))))) h = omega arith
byte_low b r (suc (suc (suc (suc (suc (suc (suc zero))))))) h = omega arith
byte_low b r (suc (suc (suc (suc (suc (suc (suc (suc k)))))))) h = absurd (omega arith)

pub div-pow-add : (v m n : ℕ) → v / 2 ^ (m + n) ≡ v / 2 ^ m / 2 ^ n
div-pow-add v m n = rw (pow-add 2 m n, div-div-eq-div-mul v (2 ^ m) (2 ^ n))

-- Every bit of a payload is that binary digit of its number.
pub digit-payload_bit :
    (bs : List ℕ) (j : ℕ) → AllBytes bs → digit (payload_bit bs j) ≡ le_number bs / 2 ^ j % 2
digit-payload_bit [] j h =
    digit-bit_test (j % 8) 0 (omega arith) (omega arith)
    ∙ rw (zero-div (2 ^ j), zero-div (2 ^ (j % 8)))
digit-payload_bit (b ∷ bs) j h = elim (dec_lt j 8) [
  | yes low ↦
      let byte : j / 8 ≡ 0 = omega arith in
      let bit : j % 8 ≡ j = omega arith in
      rw (byte, bit) (digit-bit_test j b low h.0 ∙ sym (byte_low b (le_number bs) j low))
  | no high ↦
      let k = j - 8 in
      let byte : j / 8 ≡ suc (k / 8) = omega arith in
      let bit : j % 8 ≡ k % 8 = omega arith in
      let whole : j ≡ 8 + k = omega arith in
      let rest : (b + 256 * le_number bs) / 2 ^ 8 ≡ le_number bs = omega (arith, h.0) in
      rw (byte, bit)
        (digit-payload_bit bs k h.1
          ∙ (rw (
            ap (λ t. (b + 256 * le_number bs) / 2 ^ t) whole,
            div-pow-add (b + 256 * le_number bs) 8 k,
            rest,
          )))
]

-- A run of `n` bits from `start` on is that run of the number's binary digits.
pub field_value-le_number :
    (bs : List ℕ) (start n : ℕ)
    → AllBytes bs
    → field_value (λ j. payload_bit bs (start + j)) n ≡ le_number bs / 2 ^ start % 2 ^ n
field_value-le_number bs start n h =
    field_value_of_bits (λ j. payload_bit bs (start + j)) (le_number bs / 2 ^ start) n
      λ j p. rw (← div-pow-add (le_number bs) start j) (digit-payload_bit bs (start + j) h)

-- `J1939_Unpack_Raw` of a field inside the payload succeeds, with the `bit_length` binary digits
-- from `start_bit` on of the payload's little-endian number.
pub unpack_raw-eq_le_number :
    (payload : List ℕ) (start n : ℕ)
    → AllBytes payload
    → FieldFits (length payload) start n
    → unpack_raw payload (length payload) start n ≡ some (le_number payload / 2 ^ start % 2 ^ n)
unfolding unpack_raw
unpack_raw-eq_le_number payload start n h fits = rw (
  raw_field_fits-true (length payload) start n fits,
  extract_unaligned_bits_lem payload start n,
  field_value-le_number payload start n h,
)
