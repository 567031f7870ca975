-- ===== src/Crc/Detect.antt =====
-- MID/j1939_crc32.c: what a changed byte does to the checksum.
use teep_j1939_patent.Base.{ℕ, zero, suc, ◌/◌, ◌%◌, ◌^◌, ◌≤◌, ◌<◌}
use teep_j1939_patent.Base.{
  ◌≡◌, ◌≢◌, refl, ◌∙◌, ap, sym, arith, bit_xor, bit_and, List, [], ◌∷◌, ◌++◌,
}
use teep_j1939_patent.Base.{bit_and-one, sub32, ◌⊎◌, inl, inr, All, IsByte}
use native.Mathlib.Decide.{dec_lt}
use teep_j1939_patent.Crc.{crc_poly, crc_round, crc_rounds, crc_update_u8, crc_update, crc_final}
use teep_j1939_patent.Crc.{crc_update_u16_le, crc_update_u32_le}
use teep_j1939_patent.Crc.Xor.{xor-lt, xor_cancel, xor_cancel_left, xor-xor, xor_comm, zero-xor}

-- What a round adds to the halved register: nothing, or the polynomial.
round_mask : ℕ → ℕ
round_mask crc = bit_and crc_poly (sub32 0 (bit_and crc 1))

round_mask_even : (crc : ℕ) → crc % 2 ≡ 0 → round_mask crc ≡ 0
unfolding round_mask
round_mask_even crc e = rw (bit_and-one crc, e)

round_mask_odd : (crc : ℕ) → crc % 2 ≡ 1 → round_mask crc ≡ crc_poly
unfolding round_mask
round_mask_odd crc e = rw (bit_and-one crc, e)

parity : (n : ℕ) → (n % 2 ≡ 0) ⊎ (n % 2 ≡ 1)
parity n = omega arith

-- An even register loses its top bit, an odd one gets it from the polynomial.
round_even :
    (crc : ℕ) → crc < 2 ^ 32 → crc % 2 ≡ 0 → (crc_round crc ≡ crc / 2) × (crc_round crc < 2 ^ 31)
unfolding crc_round round_mask
round_even crc h e =
    let same : crc_round crc ≡ crc / 2 =
      ap (bit_xor (crc / 2)) (round_mask_even crc e) ∙ xor_comm (crc / 2) 0 ∙ zero-xor (crc / 2) in
    (same, omega (arith, same))

top_bit_from_poly : (x : ℕ) → x < 2 ^ 31 → 2 ^ 31 ≤ bit_xor x crc_poly
top_bit_from_poly x h = elim (dec_lt (bit_xor x crc_poly) (2 ^ 31)) [
  | yes low ↦
      let back : bit_xor (bit_xor x crc_poly) x ≡ crc_poly =
        ap (λ (t : ℕ). bit_xor t x) (xor_comm x crc_poly) ∙ xor-xor crc_poly x in
      absurd (omega (arith, back, xor-lt 31 (bit_xor x crc_poly) x low h))
  | no high ↦ omega arith
]

round_odd :
    (crc : ℕ)
    → crc < 2 ^ 32
    → crc % 2 ≡ 1
    → (crc_round crc ≡ bit_xor (crc / 2) crc_poly) × (2 ^ 31 ≤ crc_round crc)
unfolding crc_round round_mask
round_odd crc h e =
    let same : crc_round crc ≡ bit_xor (crc / 2) crc_poly =
      ap (bit_xor (crc / 2)) (round_mask_odd crc e) in
    (same, omega (arith, same, top_bit_from_poly (crc / 2) (omega arith)))

pub round-lt : (crc : ℕ) → crc < 2 ^ 32 → crc_round crc < 2 ^ 32
round-lt crc h = elim (parity crc) [
  | inl e ↦ omega (arith, round_even crc h e)
  | inr o ↦
      omega (arith, round_odd crc h o, xor-lt 32 (crc / 2) crc_poly (omega arith) (omega arith))
]

-- No two register values meet after a round.
round_injective : (a b : ℕ) → a < 2 ^ 32 → b < 2 ^ 32 → crc_round a ≡ crc_round b → a ≡ b
round_injective a b ha hb e = elim (parity a) [
  | inl ae ↦ elim (parity b) [
    | inl be ↦ omega (arith, round_even a ha ae, round_even b hb be)
    | inr bo ↦ absurd (omega (arith, round_even a ha ae, round_odd b hb bo))
  ]
  | inr ao ↦ elim (parity b) [
    | inl be ↦ absurd (omega (arith, round_odd a ha ao, round_even b hb be))
    | inr bo ↦ omega (
      arith,
      xor_cancel (a / 2) (b / 2) crc_poly (sym (round_odd a ha ao).0 ∙ e ∙ (round_odd b hb bo).0),
    )
  ]
]

rounds-lt : (n crc : ℕ) → crc < 2 ^ 32 → crc_rounds n crc < 2 ^ 32
unfolding crc_rounds
rounds-lt zero crc h = h
rounds-lt (suc n) crc h = rounds-lt n (crc_round crc) (round-lt crc h)

rounds_injective : (n a b : ℕ) → a < 2 ^ 32 → b < 2 ^ 32 → crc_rounds n a ≡ crc_rounds n b → a ≡ b
unfolding crc_rounds
rounds_injective zero a b ha hb e = e
rounds_injective (suc n) a b ha hb e =
    round_injective a b ha hb
      (rounds_injective n (crc_round a) (crc_round b) (round-lt a ha) (round-lt b hb) e)

byte_fits : (crc b : ℕ) → crc < 2 ^ 32 → IsByte b → bit_xor crc b < 2 ^ 32
byte_fits crc b h hb = xor-lt 32 crc b h (omega arith)

pub update_u8-lt : (crc b : ℕ) → crc < 2 ^ 32 → IsByte b → crc_update_u8 crc b < 2 ^ 32
unfolding crc_update_u8
update_u8-lt crc b h hb = rounds-lt 8 (bit_xor crc b) (byte_fits crc b h hb)

-- One byte: different registers stay different, and different bytes make them so.
update_u8_injective :
    (x y b : ℕ) → x < 2 ^ 32 → y < 2 ^ 32 → IsByte b → crc_update_u8 x b ≡ crc_update_u8 y b → x ≡ y
unfolding crc_update_u8
update_u8_injective x y b hx hy hb e =
    xor_cancel x y b
      (rounds_injective 8 (bit_xor x b) (bit_xor y b) (byte_fits x b hx hb) (byte_fits y b hy hb) e)

update_u8_byte_injective :
    (crc b c : ℕ)
    → crc < 2 ^ 32
    → IsByte b
    → IsByte c
    → crc_update_u8 crc b ≡ crc_update_u8 crc c
    → b ≡ c
unfolding crc_update_u8
update_u8_byte_injective crc b c h hb hc e = xor_cancel_left b c crc (
    rounds_injective 8 (bit_xor crc b) (bit_xor crc c) (byte_fits crc b h hb) (byte_fits crc c h hc)
      e)

pub update-lt : (crc : ℕ) (bs : List ℕ) → crc < 2 ^ 32 → All IsByte bs → crc_update crc bs < 2 ^ 32
unfolding crc_update
update-lt crc [] h hb = h
update-lt crc (b ∷ bs) h hb = update-lt (crc_update_u8 crc b) bs (update_u8-lt crc b h hb.0) hb.1

update_injective :
    (bs : List ℕ) (x y : ℕ)
    → x < 2 ^ 32
    → y < 2 ^ 32
    → All IsByte bs
    → crc_update x bs ≡ crc_update y bs
    → x ≡ y
unfolding crc_update
update_injective [] x y hx hy hb e = e
update_injective (b ∷ bs) x y hx hy hb e = update_u8_injective x y b hx hy hb.0 (
    update_injective bs (crc_update_u8 x b) (crc_update_u8 y b) (update_u8-lt x b hx hb.0)
      (update_u8-lt y b hy hb.0) hb.1 e)

-- Streaming: a message in two parts is the message.
pub crc_update-append :
    (crc : ℕ) (xs ys : List ℕ) → crc_update crc (xs ++ ys) ≡ crc_update (crc_update crc xs) ys
unfolding crc_update
crc_update-append crc [] ys = refl
crc_update-append crc (x ∷ xs) ys = crc_update-append (crc_update_u8 crc x) xs ys

-- Two messages that differ in exactly one byte have different checksums, whatever stands before
-- and after that byte and from whatever 32-bit register the stream starts.
pub crc_detects_byte :
    (crc : ℕ) (before after : List ℕ) (b c : ℕ)
    → crc < 2 ^ 32
    → All IsByte before
    → All IsByte after
    → IsByte b
    → IsByte c
    → b ≢ c
    → crc_final (crc_update crc (before ++ b ∷ after))
      ≢ crc_final (crc_update crc (before ++ c ∷ after))
unfolding crc_final crc_update
crc_detects_byte crc before after b c h hbefore hafter hb hc ne same =
    let r = crc_update crc before in
    let hr = update-lt crc before h hbefore in
    let streams =
      sym (crc_update-append crc before (b ∷ after))
      ∙ xor_cancel (crc_update crc (before ++ b ∷ after)) (crc_update crc (before ++ c ∷ after))
          0xffff_ffff same
      ∙ crc_update-append crc before (c ∷ after) in
    ne (
      update_u8_byte_injective r b c hr hb hc (
        update_injective after (crc_update_u8 r b) (crc_update_u8 r c) (update_u8-lt r b hr hb)
          (update_u8-lt r c hr hc) hafter streams))

-- `J1939_Crc32_Update_U16_LE` and `_U32_LE` stream the value's bytes, the lowest first.
pub crc_update-le :
    (crc v : ℕ)
    → (crc_update_u16_le crc (v % 2 ^ 16) ≡ crc_update crc (v % 256 ∷ v / 256 % 256 ∷ []))
      × (crc_update_u32_le crc v
          ≡ crc_update crc (v % 256 ∷ v / 256 % 256 ∷ v / 65536 % 256 ∷ v / 16777216 % 256 ∷ []))
unfolding crc_update_u32_le crc_update_u16_le crc_update
crc_update-le crc v =
    let low : v % 2 ^ 16 % 2 ^ 8 ≡ v % 256 = omega arith in
    let second : v % 2 ^ 16 / 2 ^ 8 % 2 ^ 8 ≡ v / 256 % 256 = omega arith in
    let third : v / 2 ^ 16 % 2 ^ 16 % 2 ^ 8 ≡ v / 65536 % 256 = omega arith in
    let fourth : v / 2 ^ 16 % 2 ^ 16 / 2 ^ 8 % 2 ^ 8 ≡ v / 16777216 % 256 = omega arith in
    (rw (low, second), rw (low, second, third, fourth))
