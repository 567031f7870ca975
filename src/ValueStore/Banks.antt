-- ===== src/ValueStore/Banks.antt =====
-- MID/j1939_value_store.c: the two banks never alias.
use teep_j1939_patent.Base.{ℕ, ◌%◌, ◌^◌, ◌<◌, ◌≡◌, ap, arith, ◌⊎◌, inl, inr, bit_xor}
use teep_j1939_patent.ValueStore.Defs.{
  Store, Bank, bank_at, active, staging, staging_bank, set_staging,
}

-- `active_bank` is 0 or 1, and the staging bank is the other one.
abbrev pub HasBanks : Store → Type 0
HasBanks s = s.active_bank < 2

pub staging_bank-cases :
    (s : Store)
    → HasBanks s
    → ((s.active_bank ≡ 0) × (staging_bank s ≡ 1)) ⊎ ((s.active_bank ≡ 1) × (staging_bank s ≡ 0))
staging_bank-cases s h = elim (which s.active_bank h) [
  | inl e ↦ inl (e, ap (λ (t : ℕ). bit_xor t 1 % 2 ^ 8) e)
  | inr e ↦ inr (e, ap (λ (t : ℕ). bit_xor t 1 % 2 ^ 8) e)
]
  where
    which : (n : ℕ) → n < 2 → (n ≡ 0) ⊎ (n ≡ 1)
    which n k = omega arith

pub active-set_staging : (s : Store) (b : Bank) → HasBanks s → active (set_staging s b) ≡ active s
active-set_staging s b h = ground (arith, staging_bank-cases s h)

pub staging-set_staging : (s : Store) (b : Bank) → HasBanks s → staging (set_staging s b) ≡ b
staging-set_staging s b h = ground (arith, staging_bank-cases s h)

-- Once the banks are switched, the staging bank is the active one.
pub active_after_switch :
    (s : Store) (b : Bank) → HasBanks s → bank_at (set_staging s b) (staging_bank s) ≡ b
active_after_switch s b h = ground (arith, staging_bank-cases s h)
