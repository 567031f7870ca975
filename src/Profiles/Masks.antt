-- ===== src/Profiles/Masks.antt =====
-- MID/j1939_customer_profiles.c: what the table of profiles promises its readers.
use teep_j1939_patent.Base.{ℕ, zero, suc, ◌+◌, ◌≡◌, refl, arith}
use teep_j1939_patent.Base.{◌==◌, if◌then◌else◌, ==_iff}
use teep_j1939_patent.Base.{some, List, [], ◌∷◌, bit_test, All, Bool-cases, inl, inr, subst}
use teep_j1939_patent.Catalog.{signal_at, catalog_signals, catalog_signal_count}
use teep_j1939_patent.Profiles.{CustomerProfile, customer_profiles, find_profile, profile_has_key}
use teep_j1939_patent.Profiles.{find_profile_in}

-- How many of the first `n` signals of the catalog a profile holds
unfoldable pub count_keys : CustomerProfile → ℕ → ℕ
count_keys p zero = 0
count_keys p (suc n) =
    count_keys p n + (if profile_has_key p (signal_at n).signal_key then 1 else 0)

-- One row of the check, by evaluation
abbrev IsCounted : CustomerProfile → Type 0
IsCounted p = count_keys p catalog_signal_count ≡ p.signal_count

customer_profiles-IsCounted : All IsCounted customer_profiles
unfolding customer_profiles count_keys profile_has_key signal_at catalog_signals bit_test
customer_profiles-IsCounted =
    (refl, (refl, (refl, (refl, (refl, (refl, (refl, (refl, (refl, (refl, (refl, tt)))))))))))

found :
    (ps : List CustomerProfile) (profile_id : ℕ) (p : CustomerProfile)
    → All IsCounted ps
    → find_profile_in ps profile_id ≡ some p
    → (p.profile_id ≡ profile_id) × IsCounted p
found [] profile_id p all e = ground arith
found (q ∷ ps) profile_id p all e = elim (Bool-cases (q.profile_id == profile_id)) [
  | inl same ↦
      let here : q ≡ p = grind arith in
      subst (λ (r : CustomerProfile). (r.profile_id ≡ profile_id) × IsCounted r) here
        ((==_iff _ _).0 same, all.0)
  | inr other ↦
      let later : find_profile_in ps profile_id ≡ some p = grind arith in
      found ps profile_id p all.1 later
]

-- A profile that the lookup finds is the one asked for, and the signals of the catalog that it
-- holds are as many as its record says.
find_profile-counted :
    (profile_id : ℕ) (p : CustomerProfile)
    → find_profile profile_id ≡ some p
    → (p.profile_id ≡ profile_id) × (count_keys p catalog_signal_count ≡ p.signal_count)
unfolding find_profile
find_profile-counted profile_id p e =
    found customer_profiles profile_id p customer_profiles-IsCounted e
