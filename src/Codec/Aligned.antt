-- ===== src/Codec/Aligned.antt =====
-- MID/j1939_encode_decode.c: the byte-wise fast paths do what the bit loops do.
pub mod Write
use teep_j1939_patent.Base.{ℕ, zero, suc, ◌+◌, ◌-◌, ◌*◌, ◌/◌, ◌%◌, ◌^◌, ◌≤◌, ◌<◌}
use teep_j1939_patent.Base.{
  ◌≡◌, refl, ◌∙◌, ap, inl, inr, Bool-cases, arith, true, List, [], ◌∷◌, length, get_or, drop,
}
use teep_j1939_patent.Base.{
  get_or-drop, bit_or, bit_or_comm, bit_or-add, div-div-eq-div-mul, ◌==◌, IsByte,
}
use teep_j1939_patent.Codec.{
  Placement, absolute_start_bit, has_fast_path, is_signal_scalar_in_buffer,
}
use teep_j1939_patent.Codec.{extract_aligned_bits, extract_unaligned_bits, extract_raw_value}
use teep_j1939_patent.Codec.Payload.{AllBytes, get_or-IsByte}
use teep_j1939_patent.Codec.Value.{extract_unaligned_bits_lem}
use teep_j1939_patent.Codec.Number.{le_number, field_value-le_number, div-pow-add}
use teep_j1939_patent.Codec.RoundTrip.{FieldFits}
use teep_j1939_patent.Codec.Aligned.Write.{fits_in_buffer}
use native.Mathlib.Nat.{zero-div}

-- The number without its lowest `i` bytes.
le_number-drop :
    (bs : List ℕ) (i : ℕ) → AllBytes bs → le_number bs / 2 ^ (i * 8) ≡ le_number (drop i bs)
le_number-drop bs zero h = omega arith
le_number-drop [] (suc i) h = zero-div (2 ^ (suc i * 8))
le_number-drop (b ∷ bs) (suc i) h =
    let split : suc i * 8 ≡ 8 + i * 8 = omega arith in
    let rest : (b + 256 * le_number bs) / 2 ^ 8 ≡ le_number bs = omega (arith, h.0) in
    rw (split, div-pow-add (b + 256 * le_number bs) 8 (i * 8), rest) (le_number-drop bs i h.1)

-- The lowest byte of what is left, and the rest.
le_number-next :
    (bs : List ℕ) (i : ℕ)
    → le_number (drop i bs) ≡ get_or bs i 0 + 256 * le_number (drop (suc i) bs)
le_number-next [] zero = refl
le_number-next [] (suc i) = refl
le_number-next (b ∷ bs) zero = refl
le_number-next (b ∷ bs) (suc i) = le_number-next bs i

extract_at_byte :
    (payload : List ℕ) (i n : ℕ)
    → AllBytes payload
    → extract_unaligned_bits payload (i * 8) n ≡ le_number (drop i payload) % 2 ^ n
extract_at_byte payload i n h =
    extract_unaligned_bits_lem payload (i * 8) n
    ∙ field_value-le_number payload (i * 8) n h
    ∙ ap (λ (t : ℕ). t % 2 ^ n) (le_number-drop payload i h)

-- The `|` of up to four bytes is their little-endian sum.
or_bytes :
    (a b c d : ℕ)
    → IsByte a
    → IsByte b
    → IsByte c
    → IsByte d
    → (bit_or a (b * 256) ≡ a + b * 256)
      × (bit_or (bit_or a (b * 256)) (c * 65536) ≡ a + b * 256 + c * 65536)
      × (bit_or (bit_or (bit_or a (b * 256)) (c * 65536)) (d * 16777216)
          ≡ a + b * 256 + c * 65536 + d * 16777216)
or_bytes a b c d ha hb hc hd =
    let two = bit_or_comm a (b * 256) ∙ bit_or-add 8 (b * 256) a (omega arith) ha in
    let three =
      bit_or_comm (b * 256 + a) (c * 65536)
      ∙ bit_or-add 16 (c * 65536) (b * 256 + a) (omega arith) (omega arith) in
    let four =
      bit_or_comm (c * 65536 + (b * 256 + a)) (d * 16777216)
      ∙ bit_or-add 24 (d * 16777216) (c * 65536 + (b * 256 + a)) (omega arith) (omega arith) in
    (rw two (omega arith), rw (two, three) (omega arith), rw (two, three, four) (omega arith))

bytes_of :
    (payload : List ℕ) (i : ℕ)
    → AllBytes payload
    → let b0 = get_or payload i 0 in
      let b1 = get_or payload (i + 1) 0 in
      let b2 = get_or payload (i + 2) 0 in
      let b3 = get_or payload (i + 3) 0 in
      (extract_unaligned_bits payload (i * 8) 8 ≡ b0)
      × (extract_unaligned_bits payload (i * 8) 16 ≡ b0 + b1 * 256)
      × (extract_unaligned_bits payload (i * 8) 24 ≡ b0 + b1 * 256 + b2 * 65536)
      × (extract_unaligned_bits payload (i * 8) 32 ≡ b0 + b1 * 256 + b2 * 65536 + b3 * 16777216)
bytes_of payload i h =
    let b = λ (k : ℕ). get_or-IsByte payload k h in
    let at = λ (j k : ℕ) (e : j ≡ k). ap (λ m. get_or payload m 0) e in
    omega (
      arith,
      extract_at_byte payload i 8 h,
      extract_at_byte payload i 16 h,
      extract_at_byte payload i 24 h,
      extract_at_byte payload i 32 h,
      le_number-next payload i,
      le_number-next payload (suc i),
      le_number-next payload (suc (suc i)),
      le_number-next payload (suc (suc (suc i))),
      at (suc i) (i + 1) (omega arith),
      at (suc (suc i)) (i + 2) (omega arith),
      at (suc (suc (suc i))) (i + 3) (omega arith),
      b i,
      b (i + 1),
      b (i + 2),
      b (i + 3),
    )

extract_aligned-slow :
    (payload : List ℕ) (def : Placement)
    → AllBytes payload
    → has_fast_path def ≡ true
    → extract_aligned_bits payload def
      ≡ extract_unaligned_bits payload ((def.start_byte - 1) * 8) def.num_bits
unfolding extract_aligned_bits
extract_aligned-slow payload def h fast =
    let i = def.start_byte - 1 in
    let b = λ (k : ℕ). get_or-IsByte payload k h in
    ground (
      arith,
      or_bytes (get_or payload i 0) (get_or payload (i + 1) 0) (get_or payload (i + 2) 0)
          (get_or payload (i + 3) 0) (b i) (b (i + 1)) (b (i + 2)) (b (i + 3)),
      bytes_of payload i h,
    )

-- On a signal that `J1939_Is_Signal_Scalar_In_Buffer` admits, `prv_extract_raw_value` reads what
-- the bit loop reads: the choice of the fast path does not show.
pub extract_raw_value-slow :
    (payload : List ℕ) (def : Placement)
    → AllBytes payload
    → is_signal_scalar_in_buffer def (length payload) ≡ true
    → extract_raw_value payload def
      ≡ extract_unaligned_bits payload (absolute_start_bit def) def.num_bits
unfolding extract_raw_value
extract_raw_value-slow payload def h admitted =
    let fits = fits_in_buffer def (length payload) admitted in
    elim (Bool-cases (has_fast_path def)) [
      | inl fast ↦
          let byte_start : (def.start_byte - 1) * 8 ≡ absolute_start_bit def = ground arith in
          rw fast (
            extract_aligned-slow payload def h fast
            ∙ ap (λ s. extract_unaligned_bits payload s def.num_bits) byte_start)
      | inr slow ↦
          rw slow (ap (extract_unaligned_bits payload (absolute_start_bit def)) (omega arith))
    ]
