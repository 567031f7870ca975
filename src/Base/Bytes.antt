-- ===== src/Base/Bytes.antt =====
-- One bit of a byte: `b & (1 << k)`, `b |= (1 << k)`, `b &= (uint8_t)~(1 << k)`.
use Prim.Native.Nat.{ℕ, ◌-◌, ◌/◌, ◌%◌, ◌^◌, ◌<◌, bit_and, bit_or}
use mathlib.Core.Path.{◌≡◌, refl}
use mathlib.Core.Bool.{Bool, true, false, ◌&&◌}
use native.Mathlib.Omega.{arith}
use teep_j1939_patent.Base.Tests.{
  ◌==◌, ◌!=◌, ltb, if◌then◌else◌, all_below, all_below_sound, ==_iff,
}
use teep_j1939_patent.Base.Word.{IsByte, ◌<<<◌}

unfoldable pub bit_test : ℕ → ℕ → Bool
bit_test b k = bit_and b (1 <<< k) != 0

-- `~x` of a `uint8_t` promoted and cast back is `255 - x`.
unfoldable pub bit_assign : ℕ → ℕ → Bool → ℕ
bit_assign b k on = if on then bit_or b (1 <<< k) else bit_and b (255 - (1 <<< k))

-- The same bit, as arithmetic.
abbrev pub digit : Bool → ℕ
digit true = 1
digit false = 0

same_bool : Bool → Bool → Bool
same_bool true true = true
same_bool false false = true
same_bool _ _ = false

same_bool_sound : (a b : Bool) → same_bool a b ≡ true → a ≡ b
unfolding same_bool
same_bool_sound true true h = refl
same_bool_sound true false h = ground arith
same_bool_sound false true h = ground arith
same_bool_sound false false h = refl

-- Over every byte and every pair of positions.
assign_row : Bool → ℕ → ℕ → ℕ → Bool
assign_row on k j b =
    ltb (bit_assign b k on) 256
    && same_bool (bit_test (bit_assign b k on) j) (if k == j then on else bit_test b j)

assign_table : Bool → Bool
assign_table on = all_below 8 (λ k. all_below 8 (λ j. all_below 256 (assign_row on k j)))

assign_table_holds : (on : Bool) → assign_table on ≡ true
unfolding assign_table all_below assign_row same_bool bit_test bit_assign
assign_table_holds true = refl
assign_table_holds false = refl

assign_row_holds : (on : Bool) (k j b : ℕ) → k < 8 → j < 8 → b < 256 → assign_row on k j b ≡ true
unfolding assign_table
assign_row_holds on k j b hk hj hb =
    all_below_sound 256 _ b
      (all_below_sound 8 _ j (all_below_sound 8 _ k (assign_table_holds on) hk) hj) hb

pub bit_test-bit_assign :
    (on : Bool) (k j b : ℕ)
    → k < 8
    → j < 8
    → IsByte b
    → bit_test (bit_assign b k on) j ≡ (if k == j then on else bit_test b j)
unfolding assign_row
bit_test-bit_assign on k j b hk hj hb =
    same_bool_sound _ _ (ground (arith, assign_row_holds on k j b))

pub bit_assign-IsByte : (on : Bool) (k b : ℕ) → k < 8 → IsByte b → IsByte (bit_assign b k on)
unfolding assign_row
bit_assign-IsByte on k b hk hb = ground (arith, assign_row_holds on k 0 b)

digit_table : all_below 8 (λ k. all_below 256 (λ b. digit (bit_test b k) == b / 2 ^ k % 2)) ≡ true
unfolding all_below bit_test
digit_table = refl

pub digit-bit_test : (k b : ℕ) → k < 8 → IsByte b → digit (bit_test b k) ≡ b / 2 ^ k % 2
digit-bit_test k b hk hb =
    (==_iff _ _).0 (all_below_sound 256 _ b (all_below_sound 8 _ k digit_table hk) hb)
