-- ===== src/Crc/Xor.antt =====
-- `^` on binary digits, for every width: its laws, and that it keeps a width.
use Prim.Native.Nat.{bit_xor-bitwise, differ}
use teep_j1939_patent.Base.{ℕ, zero, suc, ◌+◌, ◌*◌, ◌/◌, ◌%◌, ◌^◌, ◌≤◌, ◌<◌}
use teep_j1939_patent.Base.{◌≡◌, refl, ◌∙◌, ap, sym, arith, bit_xor, pow-suc, bitwise-suc}

bit_xor_step : (a b : ℕ) → bit_xor a b ≡ bit_xor (a / 2) (b / 2) * 2 + differ (a % 2) (b % 2)
bit_xor_step zero b = simp bit_xor-bitwise (omega arith)
bit_xor_step (suc a) b = simp bit_xor-bitwise (bitwise-suc (λ y. y) differ a b)

differ-lt : (x y : ℕ) → x < 2 → y < 2 → differ x y ≡ (x + y) % 2
differ-lt zero y h k = omega arith
differ-lt (suc zero) zero h k = refl
differ-lt (suc zero) (suc zero) h k = refl
differ-lt (suc zero) (suc (suc y)) h k = absurd (omega arith)
differ-lt (suc (suc x)) y h k = absurd (omega arith)

differ-digit : (a b : ℕ) → differ (a % 2) (b % 2) ≡ (a + b) % 2
differ-digit a b = differ-lt (a % 2) (b % 2) (omega arith) (omega arith) ∙ (omega arith)

-- The lowest digit and the others.
xor-low : (a b : ℕ) → bit_xor a b % 2 ≡ (a + b) % 2
xor-low a b = omega (arith, bit_xor_step a b, differ-digit a b)

xor-half : (a b : ℕ) → bit_xor a b / 2 ≡ bit_xor (a / 2) (b / 2)
xor-half a b = omega (arith, bit_xor_step a b, differ-digit a b)

xor-digits : (a b : ℕ) → bit_xor a b ≡ bit_xor (a / 2) (b / 2) * 2 + (a + b) % 2
xor-digits a b = omega (arith, bit_xor_step a b, differ-digit a b)

pub xor-lt : (k a b : ℕ) → a < 2 ^ k → b < 2 ^ k → bit_xor a b < 2 ^ k
xor-lt zero zero zero ha hb = omega arith
xor-lt zero zero (suc b) ha hb = absurd (omega arith)
xor-lt zero (suc a) b ha hb = absurd (omega arith)
xor-lt (suc k) a b ha hb = omega (
  arith,
  xor-digits a b,
  pow-suc 2 k,
  xor-lt k (a / 2) (b / 2) (omega (arith, pow-suc 2 k)) (omega (arith, pow-suc 2 k)),
)

-- Each law goes from the halves to the whole: fuel above both operands.
xor_comm_fuel : (n a b : ℕ) → a ≤ n → b ≤ n → bit_xor a b ≡ bit_xor b a
xor_comm_fuel zero zero zero p q = refl
xor_comm_fuel zero zero (suc b) p q = absurd (omega arith)
xor_comm_fuel zero (suc a) b p q = absurd (omega arith)
xor_comm_fuel (suc n) a b p q = omega (
  arith,
  xor-digits a b,
  xor-digits b a,
  xor_comm_fuel n (a / 2) (b / 2) (omega arith) (omega arith),
)

pub xor_comm : (a b : ℕ) → bit_xor a b ≡ bit_xor b a
xor_comm a b = xor_comm_fuel (a + b) a b (omega arith) (omega arith)

pub zero-xor : (b : ℕ) → bit_xor 0 b ≡ b
zero-xor b = bit_xor-bitwise 0 b

pub xor_self : (a : ℕ) → bit_xor a a ≡ 0
xor_self a = go a a (omega arith)
  where
    go : (n a : ℕ) → a ≤ n → bit_xor a a ≡ 0
    go n zero h = refl
    go zero (suc a) h = absurd (omega arith)
    go (suc n) (suc a) h = omega (arith, xor-digits (suc a) (suc a), go n (suc a / 2) (omega arith))

xor_assoc_fuel : (n a b c : ℕ) → a + b + c ≤ n → bit_xor (bit_xor a b) c ≡ bit_xor a (bit_xor b c)
xor_assoc_fuel zero zero zero zero h = refl
xor_assoc_fuel zero (suc a) b c h = absurd (omega arith)
xor_assoc_fuel zero zero (suc b) c h = absurd (omega arith)
xor_assoc_fuel zero zero zero (suc c) h = absurd (omega arith)
xor_assoc_fuel (suc n) a b c h =
    let left = rw (xor-half a b) at (xor-digits (bit_xor a b) c) in
    let right = rw (xor-half b c) at (xor-digits a (bit_xor b c)) in
    omega (
      arith,
      left,
      right,
      xor-low a b,
      xor-low b c,
      xor_assoc_fuel n (a / 2) (b / 2) (c / 2) (omega arith),
    )

pub xor_assoc : (a b c : ℕ) → bit_xor (bit_xor a b) c ≡ bit_xor a (bit_xor b c)
xor_assoc a b c = xor_assoc_fuel (a + b + c) a b c (omega arith)

-- `^ c` can be undone.
pub xor-xor : (a c : ℕ) → bit_xor (bit_xor a c) c ≡ a
xor-xor a c = xor_assoc a c c ∙ ap (bit_xor a) (xor_self c) ∙ xor_comm a 0 ∙ zero-xor a

pub xor_cancel : (a b c : ℕ) → bit_xor a c ≡ bit_xor b c → a ≡ b
xor_cancel a b c e = sym (xor-xor a c) ∙ ap (λ (t : ℕ). bit_xor t c) e ∙ xor-xor b c

pub xor_cancel_left : (a b c : ℕ) → bit_xor c a ≡ bit_xor c b → a ≡ b
xor_cancel_left a b c e = xor_cancel a b c (xor_comm a c ∙ e ∙ xor_comm c b)
