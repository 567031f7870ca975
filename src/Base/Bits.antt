-- ===== src/Base/Bits.antt =====
-- `|`, `&` and `^` on binary digits, for every width.
use Prim.Native.Nat.{ℕ, zero, suc, ◌+◌, ◌-◌, ◌*◌, ◌/◌, ◌%◌, ◌^◌, ◌≤◌, ◌<◌, min, max}
use Prim.Native.Nat.{bit_and, bit_or, digits, bitwise, bit_and-bitwise, bit_or-bitwise}
use mathlib.Core.Path.{◌≡◌, refl, ap, ◌∙◌}
use native.Mathlib.Nat.{pow-zero, pow-suc, one-le-pow}
use native.Mathlib.Omega.{arith}

-- One equation for the lowest digit of any digit-wise operation. `digits` recurses on a bound of its
-- left operand, which any larger bound may replace.
module _ (rest : ℕ → ℕ) (op : ℕ → ℕ → ℕ) where
  same_digits : (x y p q : ℕ) → (x ≤ p) × (x ≤ q) → digits rest op p x y ≡ digits rest op q x y
  same_digits zero y zero zero _ = refl
  same_digits zero y zero (suc q) _ = refl
  same_digits zero y (suc p) zero _ = refl
  same_digits zero y (suc p) (suc q) _ = refl
  same_digits (suc x) y zero q h = absurd (omega (arith, h.0))
  same_digits (suc x) y (suc p) zero h = absurd (omega (arith, h.1))
  same_digits (suc x) y (suc p) (suc q) h =
      let halved = same_digits (suc x / 2) (y / 2) p q (omega (arith, h.0), omega (arith, h.1)) in
      ap (λ upper. upper * 2 + op (suc x % 2) (y % 2)) halved

  pub bitwise-suc :
      (x y : ℕ)
      → bitwise rest op (suc x) y ≡ bitwise rest op (suc x / 2) (y / 2) * 2 + op (suc x % 2) (y % 2)
  bitwise-suc x y =
      let halved = same_digits (suc x / 2) (y / 2) x (suc x / 2) (omega arith, omega arith) in
      ap (λ upper. upper * 2 + op (suc x % 2) (y % 2)) halved

pub bit_or_step : (x y : ℕ) → bit_or x y ≡ max (x % 2) (y % 2) + 2 * bit_or (x / 2) (y / 2)
bit_or_step zero y = simp bit_or-bitwise (omega arith)
bit_or_step (suc x) y = simp bit_or-bitwise (omega (arith, bitwise-suc (λ b. b) max x y))

pub bit_and_step : (x y : ℕ) → bit_and x y ≡ min (x % 2) (y % 2) + 2 * bit_and (x / 2) (y / 2)
bit_and_step zero y = simp bit_and-bitwise (omega arith)
bit_and_step (suc x) y = simp bit_and-bitwise (omega (arith, bitwise-suc (λ b. 0) min x y))

pub zero-bit_or : (y : ℕ) → bit_or 0 y ≡ y
zero-bit_or y = bit_or-bitwise 0 y

pub zero-bit_and : (y : ℕ) → bit_and 0 y ≡ 0
zero-bit_and y = bit_and-bitwise 0 y

pub bit_or_comm_fuel : (n x y : ℕ) → x + y ≤ n → bit_or x y ≡ bit_or y x
bit_or_comm_fuel zero x y small =
    let left : x ≡ 0 = omega arith in let right : y ≡ 0 = omega arith in rw (left, right) refl
bit_or_comm_fuel (suc n) zero zero small = refl
bit_or_comm_fuel (suc n) zero (suc y) small =
    let halved = bit_or_comm_fuel n 0 (suc y / 2) (omega arith) in
    omega (arith, bit_or_step 0 (suc y), bit_or_step (suc y) 0, halved)
bit_or_comm_fuel (suc n) (suc x) y small =
    let halved = bit_or_comm_fuel n (suc x / 2) (y / 2) (omega arith) in
    omega (arith, bit_or_step (suc x) y, bit_or_step y (suc x), halved)

pub bit_or_comm : (x y : ℕ) → bit_or x y ≡ bit_or y x
bit_or_comm x y = bit_or_comm_fuel (x + y) x y (omega arith)

pub bit_or-zero : (x : ℕ) → bit_or x 0 ≡ x
bit_or-zero x = bit_or_comm x 0 ∙ zero-bit_or x

bit_and-zero_fuel : (n x : ℕ) → x ≤ n → bit_and x 0 ≡ 0
bit_and-zero_fuel zero x small = let none : x ≡ 0 = omega arith in rw none refl
bit_and-zero_fuel (suc n) x small =
    omega (arith, bit_and_step x 0, bit_and-zero_fuel n (x / 2) (omega arith))

pub bit_and-zero : (x : ℕ) → bit_and x 0 ≡ 0
bit_and-zero x = bit_and-zero_fuel x x (omega arith)

pub bit_and-one : (x : ℕ) → bit_and x 1 ≡ x % 2
bit_and-one x = omega (arith, bit_and_step x 1, bit_and-zero (x / 2))

twice_shifted : (high width : ℕ) → high * 2 ^ suc width ≡ 2 * (high * 2 ^ width)
twice_shifted high width = omega (arith, ap (λ (power : ℕ). high * power) (pow-suc 2 width))

-- `(high << width) | low` is a sum when `low` fits `width` bits.
pub bit_or_fields :
    (width high low : ℕ) → low < 2 ^ width → bit_or (high * 2 ^ width) low ≡ high * 2 ^ width + low
bit_or_fields zero high low small = ground (arith, bit_or-zero high)
bit_or_fields (suc width) high low small =
    let upper = bit_or_fields width high (low / 2) (omega (arith, pow-suc 2 width)) in
    let step = bit_or_step (high * 2 ^ suc width) low in
    ground (arith, upper, step, twice_shifted high width, pow-suc 2 width)

bit_and_fields :
    (width high low : ℕ) → low < 2 ^ width → bit_and (high * 2 ^ width + low) (2 ^ width - 1) ≡ low
bit_and_fields zero high low small = rw bit_and-zero (omega arith)
bit_and_fields (suc width) high low small =
    let upper = bit_and_fields width high (low / 2) (omega (arith, pow-suc 2 width)) in
    let step = bit_and_step (high * 2 ^ suc width + low) (2 ^ suc width - 1) in
    ground (arith, upper, step, twice_shifted high width, pow-suc 2 width)

-- A mask of `width` low bits is the remainder by `2 ^ width`.
pub bit_and_mask : (width x : ℕ) → bit_and x (2 ^ width - 1) ≡ x % 2 ^ width
bit_and_mask width x =
    let fields = bit_and_fields width (x / 2 ^ width) (x % 2 ^ width) in
    ground (arith, one-le-pow width 2, fields)

-- `a | b` is `a + b` when `a` ends in `k` zeros and `b` fits `k` bits.
pub bit_or-add : (k a b : ℕ) → a % 2 ^ k ≡ 0 → b < 2 ^ k → bit_or a b ≡ a + b
bit_or-add k a b ends fits = rw whole (bit_or_fields k (a / 2 ^ k) b fits)
  where
    whole : a ≡ a / 2 ^ k * 2 ^ k
    whole = grind arith

pub pow-add : (b m n : ℕ) → b ^ (m + n) ≡ b ^ m * b ^ n
pow-add b zero n = let e : zero + n ≡ n = omega arith in rw (e, pow-zero b) (omega arith)
pow-add b (suc m) n =
    let e : suc m + n ≡ suc (m + n) = omega arith in
    rw (e, pow-suc b (m + n), pow-add b m n, pow-suc b m) (omega arith)
