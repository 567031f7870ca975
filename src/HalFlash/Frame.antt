-- ===== src/HalFlash/Frame.antt =====
-- HAL/hal_flash_stm32f1.c: an operation changes the bytes it was asked to change and no others.
use teep_j1939_patent.Base.{ℕ, ◌+◌, ◌≤◌, ◌<◌, ◌≡◌, ◌⊎◌, inl, inr, arith, Bool, ◌==◌}
use teep_j1939_patent.HalFlash.{Flash, flash_page_size, operate, erase_page}
use teep_j1939_patent.HalFlash.{program_halfword, is_erased, halfword_at}

-- No byte outside `[first, first + len)` differs.
abbrev pub SameOutside : ℕ → ℕ → (ℕ → ℕ) → (ℕ → ℕ) → Type 0
SameOutside first len m n = (a : ℕ) → (a < first) ⊎ (first + len ≤ a) → n a ≡ m a

operate-SameOutside :
    (address len : ℕ) (verified : (ℕ → ℕ) → Bool) (f : Flash)
    → SameOutside address len f.memory (operate address len verified f).1.memory
unfolding operate
operate-SameOutside address len verified f a (inl h) = ground arith
operate-SameOutside address len verified f a (inr h) = ground arith

pub erase_page-SameOutside :
    (address : ℕ) (f : Flash)
    → SameOutside address flash_page_size f.memory (erase_page address f).1.memory
unfolding erase_page
erase_page-SameOutside address f a h = ground (
  arith,
  operate-SameOutside address flash_page_size (λ m. is_erased m address flash_page_size) f a h,
)

pub program_halfword-SameOutside :
    (address value : ℕ) (f : Flash)
    → SameOutside address 2 f.memory (program_halfword address value f).1.memory
unfolding program_halfword
program_halfword-SameOutside address value f a h =
    ground (arith, operate-SameOutside address 2 (λ m. halfword_at m address == value) f a h)
