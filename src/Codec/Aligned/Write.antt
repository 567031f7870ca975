-- ===== src/Codec/Aligned/Write.antt =====
-- MID/j1939_encode_decode.c: `prv_write_aligned_bits` writes what the bit loop writes.
use teep_j1939_patent.Base.{ℕ, zero, suc, ◌+◌, ◌-◌, ◌*◌, ◌/◌, ◌%◌, ◌^◌, ◌≤◌, ◌<◌}
use teep_j1939_patent.Base.{
  ◌≡◌, refl, ◌∙◌, ap, ap₂, sym, inl, inr, Bool-cases, arith, Bool, true, false, List, length,
  get_or, set,
}
use teep_j1939_patent.Base.{length-set, get_or-set_self, get_or-set_ne, All-set, IsByte}
use teep_j1939_patent.Base.{digit, digit-bit_test, bit_test, bit_and, bit_and_mask, ◌!=◌, ◌<<<◌}
use teep_j1939_patent.Base.{ltb, leb, ◌&&◌, if◌then◌else◌}
use native.Mathlib.Decide.{ℕ_discrete}
use teep_j1939_patent.Codec.{Placement, payload_bit, absolute_start_bit, has_fast_path}
use teep_j1939_patent.Codec.{is_signal_scalar_in_buffer}
use teep_j1939_patent.Codec.{write_aligned_bits, write_unaligned_bits, write_raw_value}
use teep_j1939_patent.Codec.Payload.{AllBytes, length-write_bits, write_bits-AllBytes, payload_ext}
use teep_j1939_patent.Codec.Payload.{payload_bit-write_bits}
use teep_j1939_patent.Codec.Value.{digit-mask_test}
use teep_j1939_patent.Codec.Number.{byte_low, div-pow-add}

-- `n` bytes of `value` written from index `i` on, the lowest first.
abbrev write_bytes : List ℕ → ℕ → ℕ → ℕ → List ℕ
write_bytes payload i value zero = payload
write_bytes payload i value (suc n) =
    set (write_bytes payload i value n) (i + n) (value / 2 ^ (8 * n) % 256)

length-write_bytes :
    (payload : List ℕ) (i value n : ℕ) → length (write_bytes payload i value n) ≡ length payload
length-write_bytes payload i value zero = refl
length-write_bytes payload i value (suc n) =
    length-set (write_bytes payload i value n) (i + n) _ ∙ length-write_bytes payload i value n

write_bytes-AllBytes :
    (payload : List ℕ) (i value n : ℕ) → AllBytes payload → AllBytes (write_bytes payload i value n)
write_bytes-AllBytes payload i value zero h = h
write_bytes-AllBytes payload i value (suc n) h =
    All-set IsByte _ (i + n) _ (write_bytes-AllBytes payload i value n h) (omega arith)

digit_injective : (a b : Bool) → digit a ≡ digit b → a ≡ b
digit_injective true true h = refl
digit_injective true false h = absurd (omega arith)
digit_injective false true h = absurd (omega arith)
digit_injective false false h = refl

mask_bit : ℕ → ℕ → Bool
mask_bit value i = bit_and value (1 <<< i) != 0

-- Bit `k` of byte `n` of a value is its bit `8 * n + k`.
byte_bit :
    (value n k : ℕ) → k < 8 → bit_test (value / 2 ^ (8 * n) % 256) k ≡ mask_bit value (8 * n + k)
unfolding mask_bit
byte_bit value n k hk = digit_injective _ _ (
    digit-bit_test k (value / 2 ^ (8 * n) % 256) hk (omega arith)
    ∙ sym (byte_low (value / 2 ^ (8 * n) % 256) (value / 2 ^ (8 * n) / 256) k hk)
    ∙ ap (λ (t : ℕ). t / 2 ^ k % 2) whole
    ∙ ap (λ (t : ℕ). t % 2) (sym (div-pow-add value (8 * n) k))
    ∙ sym (digit-mask_test value (8 * n + k)))
  where
    whole : value / 2 ^ (8 * n) % 256 + 256 * (value / 2 ^ (8 * n) / 256) ≡ value / 2 ^ (8 * n)
    whole = omega arith

payload_bit-write_bytes :
    (payload : List ℕ) (i value n p : ℕ)
    → i + n ≤ length payload
    → payload_bit (write_bytes payload i value n) p ≡ (
        if leb (i * 8) p && ltb p (i * 8 + 8 * n)
        then mask_bit value (p - i * 8)
        else payload_bit payload p)
payload_bit-write_bytes payload i value zero p fits = ground arith
payload_bit-write_bytes payload i value (suc n) p fits =
    let old = write_bytes payload i value n in
    let byte = value / 2 ^ (8 * n) % 256 in
    let ih = payload_bit-write_bytes payload i value n p (omega arith) in
    elim (ℕ_discrete (p / 8) (i + n)) [
      | yes here ↦
          let written : get_or (set old (i + n) byte) (p / 8) 0 ≡ byte = rw here (
            get_or-set_self old (i + n) byte 0
              (omega (arith, length-write_bytes payload i value n))) in
          let at : 8 * n + p % 8 ≡ p - i * 8 = omega arith in
          ground (arith, written, byte_bit value n (p % 8) (omega arith), ap (mask_bit value) at)
      | no away ↦
          let kept = get_or-set_ne old (i + n) (p / 8) byte 0 (λ e. away (sym e)) in
          ground (arith, kept, ih)
    ]

-- The same bytes as the bit loop, by their bits.
write_bytes-slow :
    (payload : List ℕ) (i value n : ℕ)
    → AllBytes payload
    → i + n ≤ length payload
    → write_bytes payload i value n ≡ write_unaligned_bits payload (i * 8) (8 * n) value
unfolding write_unaligned_bits mask_bit
write_bytes-slow payload i value n h fits =
    payload_ext _ _ (write_bytes-AllBytes payload i value n h)
      (write_bits-AllBytes (mask_bit value) (i * 8) (8 * n) 0 payload h)
      (length-write_bytes payload i value n
        ∙ sym (length-write_bits (mask_bit value) (i * 8) (8 * n) 0 payload))
      λ p. ground (
        arith,
        payload_bit-write_bytes payload i value n p fits,
        payload_bit-write_bits (mask_bit value) (i * 8) (8 * n) 0 payload p h,
      )

mask8 : (x : ℕ) → bit_and x 0xff ≡ x % 256
mask8 x = bit_and_mask 8 x

set_cong : {xs ys : List ℕ} {i j v w : ℕ} → xs ≡ ys → i ≡ j → v ≡ w → set xs i v ≡ set ys j w
set_cong p q r = λ k. set (p k) (q k) (r k)

-- The four assignments of the fast path are the first four written bytes.
module _ (payload : List ℕ) (i value : ℕ) where
  one_byte : set payload i (bit_and value 0xff % 256) ≡ write_bytes payload i value 1
  one_byte = set_cong refl (omega arith) (omega (arith, mask8 value))

  two_bytes :
      set (set payload i (bit_and value 0xff % 256)) (i + 1) (bit_and (value / 256) 0xff % 256)
      ≡ write_bytes payload i value 2
  two_bytes = set_cong one_byte refl (omega (arith, mask8 (value / 256)))

  three_bytes :
      set
        (set (set payload i (bit_and value 0xff % 256)) (i + 1) (bit_and (value / 256) 0xff % 256))
        (i + 2)
        (bit_and (value / 65536) 0xff % 256)
      ≡ write_bytes payload i value 3
  three_bytes = set_cong two_bytes refl (omega (arith, mask8 (value / 65536)))

  four_bytes :
      set
        (set
          (set
            (set payload i (bit_and value 0xff % 256))
            (i + 1)
            (bit_and (value / 256) 0xff % 256))
          (i + 2)
          (bit_and (value / 65536) 0xff % 256))
        (i + 3)
        (bit_and (value / 16777216) 0xff % 256)
      ≡ write_bytes payload i value 4
  four_bytes = set_cong three_bytes refl (omega (arith, mask8 (value / 16777216)))

-- The `switch` of the fast path, by size.
write_aligned-bytes :
    (payload : List ℕ) (def : Placement) (value : ℕ)
    → has_fast_path def ≡ true
    → (n : ℕ) × (def.num_bits ≡ 8 * n)
      × (write_aligned_bits payload def value ≡ write_bytes payload (def.start_byte - 1) value n)
unfolding write_aligned_bits
write_aligned-bytes payload def value fast = elim (ℕ_discrete def.num_bits 8) [
  | yes e ↦ (1, e, ground (arith, one_byte payload (def.start_byte - 1) value))
  | no n8 ↦ elim (ℕ_discrete def.num_bits 16) [
    | yes e ↦ (2, e, ground (arith, two_bytes payload (def.start_byte - 1) value))
    | no n16 ↦ elim (ℕ_discrete def.num_bits 24) [
      | yes e ↦ (3, e, ground (arith, three_bytes payload (def.start_byte - 1) value))
      | no n24 ↦ (4, ground arith, ground (arith, four_bytes payload (def.start_byte - 1) value))
    ]
  ]
]

pub fits_in_buffer :
    (def : Placement) (len : ℕ)
    → is_signal_scalar_in_buffer def len ≡ true
    → (1 ≤ def.start_byte)
      × (1 ≤ def.start_bit)
      × (1 ≤ def.num_bits)
      × (def.num_bits ≤ 32)
      × (absolute_start_bit def + def.num_bits ≤ 8 * len)
unfolding is_signal_scalar_in_buffer
fits_in_buffer def len h = ground arith

-- On a signal that `J1939_Is_Signal_Scalar_In_Buffer` admits, `prv_write_raw_value` writes what
-- the bit loop writes: the choice of the fast path does not show.
pub write_raw_value-slow :
    (payload : List ℕ) (def : Placement) (value : ℕ)
    → AllBytes payload
    → is_signal_scalar_in_buffer def (length payload) ≡ true
    → write_raw_value payload def value
      ≡ write_unaligned_bits payload (absolute_start_bit def) def.num_bits value
unfolding write_raw_value
write_raw_value-slow payload def value h admitted =
    let fits = fits_in_buffer def (length payload) admitted in
    elim (Bool-cases (has_fast_path def)) [
      | inl fast ↦
          let (n, size, bytes) = write_aligned-bytes payload def value fast in
          let byte_start : (def.start_byte - 1) * 8 ≡ absolute_start_bit def = ground arith in
          rw fast (
            bytes
            ∙ write_bytes-slow payload (def.start_byte - 1) value n h (omega arith)
            ∙ ap₂ (λ s m. write_unaligned_bits payload s m value) byte_start (sym size))
      | inr slow ↦
          rw slow
            (ap (λ m. write_unaligned_bits payload (absolute_start_bit def) m value) (omega arith))
    ]
