-- ===== src/Codec/Payload.antt =====
-- The bits of a payload: one write, the writing loop, and the payload as its bits.
use teep_j1939_patent.Base.{ℕ, zero, suc, ◌+◌, ◌-◌, ◌*◌, ◌/◌, ◌%◌, ◌^◌, ◌≤◌, ◌<◌}
use teep_j1939_patent.Base.{◌≡◌, refl, ◌∙◌, ap, arith, Bool, List, All}
use teep_j1939_patent.Base.{length, get_or, length-set, get_or-set_self, get_or-set_ne}
use teep_j1939_patent.Base.{get_or_ext, All-set, All-get_or, IsByte, ◌==◌, if◌then◌else◌}
use teep_j1939_patent.Base.{bit_test, bit_assign, bit_test-bit_assign, bit_assign-IsByte}
use teep_j1939_patent.Base.{digit, digit-bit_test, ltb, leb, ◌&&◌}
use teep_j1939_patent.Codec.{payload_bit, assign_payload_bit, write_bits}

abbrev pub AllBytes : List ℕ → Type 0
AllBytes payload = All IsByte payload

pub get_or-IsByte : (payload : List ℕ) (i : ℕ) → AllBytes payload → IsByte (get_or payload i 0)
get_or-IsByte payload i h = All-get_or IsByte payload i 0 h (omega arith)

pub length-assign :
    (payload : List ℕ) (pos : ℕ) (on : Bool)
    → length (assign_payload_bit payload pos on) ≡ length payload
length-assign payload pos on = length-set payload (pos / 8) _

pub assign-AllBytes :
    (payload : List ℕ) (pos : ℕ) (on : Bool)
    → AllBytes payload
    → AllBytes (assign_payload_bit payload pos on)
assign-AllBytes payload pos on h =
    All-set IsByte payload (pos / 8) _ h
      (bit_assign-IsByte on (pos % 8) _ (omega arith) (get_or-IsByte payload (pos / 8) h))

pub payload_bit-assign :
    (payload : List ℕ) (pos : ℕ) (on : Bool) (p : ℕ)
    → AllBytes payload
    → pos < 8 * length payload
    → payload_bit (assign_payload_bit payload pos on) p
      ≡ (if p == pos then on else payload_bit payload p)
payload_bit-assign payload pos on p h fits = ground (
  arith,
  get_or-set_self payload (pos / 8) (bit_assign (get_or payload (pos / 8) 0) (pos % 8) on) 0,
  get_or-set_ne payload (pos / 8) (p / 8) (bit_assign (get_or payload (pos / 8) 0) (pos % 8) on) 0,
  bit_test-bit_assign on (pos % 8) (p % 8) (get_or payload (pos / 8) 0),
  get_or-IsByte payload (pos / 8) h,
)

pub length-write_bits :
    (bit : ℕ → Bool) (start left i : ℕ) (payload : List ℕ)
    → length (write_bits bit start left i payload) ≡ length payload
unfolding write_bits
length-write_bits bit start zero i payload = refl
length-write_bits bit start (suc left) i payload =
    length-write_bits bit start left (i + 1) _ ∙ length-assign payload (start + i) (bit i)

pub write_bits-AllBytes :
    (bit : ℕ → Bool) (start left i : ℕ) (payload : List ℕ)
    → AllBytes payload
    → AllBytes (write_bits bit start left i payload)
unfolding write_bits
write_bits-AllBytes bit start zero i payload h = h
write_bits-AllBytes bit start (suc left) i payload h =
    write_bits-AllBytes bit start left (i + 1) _ (assign-AllBytes payload (start + i) (bit i) h)

-- The loop sets exactly the bits of its range.
pub payload_bit-write_bits :
    (bit : ℕ → Bool) (start left i : ℕ) (payload : List ℕ) (p : ℕ)
    → AllBytes payload
    → start + i + left ≤ 8 * length payload
    → payload_bit (write_bits bit start left i payload) p ≡ (
        if leb (start + i) p && ltb p (start + i + left)
        then bit (p - start)
        else payload_bit payload p)
unfolding write_bits
payload_bit-write_bits bit start zero i payload p h fits = ground arith
payload_bit-write_bits bit start (suc left) i payload p h fits =
    let on = bit i in
    let next = assign_payload_bit payload (start + i) on in
    let ih =
      payload_bit-write_bits bit start left (i + 1) next p
        (assign-AllBytes payload (start + i) on h)
        (omega (arith, length-assign payload (start + i) on)) in
    let first = payload_bit-assign payload (start + i) on p h (omega arith) in
    let there : (p ≡ start + i) → bit i ≡ bit (p - start) = λ e. ap bit (omega arith) in
    ground (arith, ih, first, there)

-- Bytes are equal when their eight bits are.
byte_ext_digits :
    (a b : ℕ) → IsByte a → IsByte b → ((k : ℕ) → k < 8 → a / 2 ^ k % 2 ≡ b / 2 ^ k % 2) → a ≡ b
byte_ext_digits a b ha hb h = omega (
  arith,
  h 0 (omega arith),
  h 1 (omega arith),
  h 2 (omega arith),
  h 3 (omega arith),
  h 4 (omega arith),
  h 5 (omega arith),
  h 6 (omega arith),
  h 7 (omega arith),
)

pub byte_ext :
    (a b : ℕ) → IsByte a → IsByte b → ((k : ℕ) → k < 8 → bit_test a k ≡ bit_test b k) → a ≡ b
byte_ext a b ha hb h =
    byte_ext_digits a b ha hb
      λ k hk. omega (arith, digit-bit_test k a hk ha, digit-bit_test k b hk hb, ap digit (h k hk))

-- Payloads of one length are equal when all their bits are.
pub payload_ext :
    (xs ys : List ℕ)
    → AllBytes xs
    → AllBytes ys
    → length xs ≡ length ys
    → ((p : ℕ) → payload_bit xs p ≡ payload_bit ys p)
    → xs ≡ ys
payload_ext xs ys hx hy e h = get_or_ext 0 xs ys e λ i hi.
    byte_ext _ _ (get_or-IsByte xs i hx) (get_or-IsByte ys i hy) λ k hk.
      let here : (8 * i + k) / 8 ≡ i = omega arith in
      let bit_here : (8 * i + k) % 8 ≡ k = omega arith in rw (here, bit_here) at (h (8 * i + k))
