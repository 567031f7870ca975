-- ===== src/Codec/Value.antt =====
-- The number that a run of bits stands for, and the reading loop that computes it.
use teep_j1939_patent.Base.{ℕ, zero, suc, ◌+◌, ◌*◌, ◌/◌, ◌%◌, ◌^◌, ◌≤◌, ◌<◌}
use teep_j1939_patent.Base.{◌≡◌, refl, ◌∙◌, ap, arith, Bool, true, false, List, if◌then◌else◌}
use teep_j1939_patent.Base.{digit, ◌!=◌, ◌<<<◌, ◌>>>◌, bit_and, bit_or, pow-suc, one-le-pow}
use teep_j1939_patent.Base.{bit_and-one, bit_and_step, bit_or_comm, bit_or_fields}
use teep_j1939_patent.Base.{div-div-eq-div-mul, div-add-mod', mod-lt}
use native.Mathlib.Nat.{mul-add-mod_self_right, mod-eq_of_lt}
use teep_j1939_patent.Codec.{payload_bit, extract_bits, extract_unaligned_bits}

-- Bit 0 is the least significant one.
abbrev pub field_value : (ℕ → Bool) → ℕ → ℕ
field_value bit zero = 0
field_value bit (suc n) = field_value bit n + digit (bit n) * 2 ^ n

digit_term-lt : (b : Bool) (r p : ℕ) → r < p → r + digit b * p < p * 2
digit_term-lt true r p h = omega arith
digit_term-lt false r p h = omega arith

pub field_value-lt : (bit : ℕ → Bool) (n : ℕ) → field_value bit n < 2 ^ n
field_value-lt bit zero = omega arith
field_value-lt bit (suc n) =
    rw (pow-suc 2 n) (digit_term-lt (bit n) _ (2 ^ n) (field_value-lt bit n))

pub field_value_ext :
    (bit other : ℕ → Bool) (n : ℕ)
    → ((i : ℕ) → i < n → bit i ≡ other i)
    → field_value bit n ≡ field_value other n
field_value_ext bit other zero h = refl
field_value_ext bit other (suc n) h =
    let ih = field_value_ext bit other n (λ i p. h i (omega arith)) in
    let last = h n (omega arith) in rw (ih, last)

div-pow-suc : (v n : ℕ) → v / 2 ^ suc n ≡ v / 2 ^ n / 2
div-pow-suc v n = rw (pow-suc 2 n, div-div-eq-div-mul v (2 ^ n) 2)

mod-double : (v p : ℕ) → 0 < p → v % (p * 2) ≡ v % p + v / p % 2 * p
mod-double v p pos =
    let low = v % p + v / p % 2 * p in
    let whole : v ≡ v / p / 2 * (p * 2) + low =
      omega (arith, div-add-mod' v p, ap (λ (t : ℕ). t * p) (div-add-mod' (v / p) 2)) in
    let bit_fits : v / p % 2 * p ≤ p = grind arith in
    let fits : low < p * 2 = omega (arith, mod-lt v pos, bit_fits) in
    ap (λ (t : ℕ). t % (p * 2)) whole
    ∙ mul-add-mod_self_right (v / p / 2) (p * 2) low
    ∙ mod-eq_of_lt fits

mod-pow-suc : (v n : ℕ) → v % 2 ^ suc n ≡ v % 2 ^ n + v / 2 ^ n % 2 * 2 ^ n
mod-pow-suc v n = rw (pow-suc 2 n) (mod-double v (2 ^ n) (one-le-pow n 2 (omega arith)))

-- The low `n` bits of a number make up its remainder.
pub field_value_of_bits :
    (bit : ℕ → Bool) (v n : ℕ)
    → ((i : ℕ) → i < n → digit (bit i) ≡ v / 2 ^ i % 2)
    → field_value bit n ≡ v % 2 ^ n
field_value_of_bits bit v zero h = omega arith
field_value_of_bits bit v (suc n) h =
    rw (field_value_of_bits bit v n (λ i p. h i (omega arith)), h n (omega arith), mod-pow-suc v n)

-- `(v >> i) & 1`
pub digit-shift_test : (v i : ℕ) → digit (bit_and (v >>> i) 1 != 0) ≡ v / 2 ^ i % 2
digit-shift_test v i = ground (arith, bit_and-one (v / 2 ^ i))

bit_and-pow : (v i : ℕ) → bit_and v (2 ^ i) ≡ v / 2 ^ i % 2 * 2 ^ i
bit_and-pow v zero = omega (arith, bit_and-one v)
bit_and-pow v (suc i) =
    let halved : 2 ^ suc i / 2 ≡ 2 ^ i = omega (arith, pow-suc 2 i) in
    let even : 2 ^ suc i % 2 ≡ 0 = omega (arith, pow-suc 2 i) in
    let split : v / 2 ^ suc i ≡ v / 2 / 2 ^ i =
      rw (pow-suc 2 i, div-div-eq-div-mul v 2 (2 ^ i)) (ap (λ (t : ℕ). v / t) (omega arith)) in
    rw (bit_and_step v (2 ^ suc i), halved, even, split, bit_and-pow (v / 2) i, pow-suc 2 i)
      (omega arith)

-- `v & (1 << i)`
pub digit-mask_test : (v i : ℕ) → digit (bit_and v (1 <<< i) != 0) ≡ v / 2 ^ i % 2
digit-mask_test v i = ground (arith, bit_and-pow v i, one-le-pow i 2)

-- One round: a set bit above the bits read so far is added.
or_digit :
    (b : Bool) (r i : ℕ) → r < 2 ^ i → (if b then bit_or r (1 <<< i) else r) ≡ r + digit b * 2 ^ i
or_digit true r i h = omega (arith, bit_or_comm r (1 * 2 ^ i), bit_or_fields i 1 r h)
or_digit false r i h = omega arith

-- The reading loop adds the bits of its range.
extract_bits-field_value :
    (payload : List ℕ) (start left i : ℕ)
    → extract_bits payload start left i (field_value (λ j. payload_bit payload (start + j)) i)
      ≡ field_value (λ j. payload_bit payload (start + j)) (i + left)
unfolding extract_bits
extract_bits-field_value payload start zero i =
    ap (field_value (λ j. payload_bit payload (start + j))) (omega arith)
extract_bits-field_value payload start (suc left) i =
    let bit = λ (j : ℕ). payload_bit payload (start + j) in
    let once = or_digit (bit i) (field_value bit i) i (field_value-lt bit i) in
    let next : field_value bit (suc i) ≡ field_value bit (i + 1) =
      ap (field_value bit) {x = suc i} (omega arith) in
    let total : i + 1 + left ≡ i + suc left = omega arith in
    rw (once, next)
      (extract_bits-field_value payload start left (i + 1) ∙ ap (field_value bit) total)

pub extract_unaligned_bits_lem :
    (payload : List ℕ) (start n : ℕ)
    → extract_unaligned_bits payload start n ≡ field_value (λ j. payload_bit payload (start + j)) n
unfolding extract_unaligned_bits
extract_unaligned_bits_lem payload start n =
    let bit = λ (j : ℕ). payload_bit payload (start + j) in
    let total : 0 + n ≡ n = omega arith in
    extract_bits-field_value payload start n 0 ∙ ap (field_value bit) total
