-- ===== src/Profiles.antt =====
-- MID/j1939_customer_profiles.{h,c}: the customers' profiles as masks of signal keys.
pub mod Masks
use teep_j1939_patent.Base.{ℕ, ◌-◌, ◌/◌, ◌%◌, List, [], ◌∷◌, get_or, Bool, false, ◌||◌, ltb}
use teep_j1939_patent.Base.{◌==◌, if◌then◌else◌, Option, none, some, u16, bit_test}
use teep_j1939_patent.Catalog.{key_min, key_max}

-- `J1939_Customer_Profile_t`
pub record CustomerProfile : Type 0 where
  pub profile_id : ℕ
  pub signal_count : ℕ
  pub pgn_count : ℕ
  pub flags : ℕ
  pub baseline_load_500k_decipct : ℕ
  pub unresolved_mode_count : ℕ
  pub key_mask : List ℕ

abbrev pub profile_count : ℕ
profile_count = 11

-- `J1939_PROFILE_ID_CUSTOM`
abbrev pub profile_id_custom : ℕ
profile_id_custom = 0xff

abbrev row : ℕ → ℕ → ℕ → ℕ → ℕ → ℕ → List ℕ → CustomerProfile
row profile_id signal_count pgn_count flags load unresolved key_mask = record {
  profile_id = profile_id;
  signal_count = signal_count;
  pgn_count = pgn_count;
  flags = flags;
  baseline_load_500k_decipct = load;
  unresolved_mode_count = unresolved;
  key_mask = key_mask;
}

-- `J1939_Customer_Profiles`
unfoldable pub customer_profiles : List CustomerProfile
customer_profiles =
    row 0 179 60 0x02 229 0 (
      0xff ∷ 0xff ∷ 0xff ∷ 0xff ∷ 0xff ∷ 0xff ∷ 0xff ∷ 0xff ∷ 0xff ∷ 0xff ∷ 0xff ∷ 0xff ∷ 0xff
      ∷ 0xff ∷ 0xff ∷ 0xff ∷ 0xff ∷ 0xff ∷ 0xff ∷ 0xff ∷ 0xff ∷ 0xff ∷ 0x07 ∷ [])
    ∷ row 1 57 25 0x01 180 0 (
        0x00 ∷ 0x6e ∷ 0x01 ∷ 0xc0 ∷ 0x02 ∷ 0x2e ∷ 0x00 ∷ 0x3c ∷ 0x01 ∷ 0xc5 ∷ 0x01 ∷ 0x01 ∷ 0x43
        ∷ 0x00 ∷ 0xff ∷ 0xcd ∷ 0x0d ∷ 0xec ∷ 0x0d ∷ 0xc4 ∷ 0x49 ∷ 0x00 ∷ 0x00 ∷ [])
    ∷ row 2 36 20 0x01 130 0 (
        0x00 ∷ 0x7e ∷ 0x00 ∷ 0x80 ∷ 0xe2 ∷ 0x26 ∷ 0x00 ∷ 0x00 ∷ 0x01 ∷ 0x45 ∷ 0x00 ∷ 0x00 ∷ 0x43
        ∷ 0x00 ∷ 0x00 ∷ 0xc8 ∷ 0x01 ∷ 0x8c ∷ 0x01 ∷ 0x00 ∷ 0x00 ∷ 0xf8 ∷ 0x03 ∷ [])
    ∷ row 3 61 29 0x01 108 0 (
        0x88 ∷ 0x8e ∷ 0x01 ∷ 0xe0 ∷ 0xc7 ∷ 0xe6 ∷ 0x01 ∷ 0x00 ∷ 0x00 ∷ 0x51 ∷ 0x01 ∷ 0x00 ∷ 0xc5
        ∷ 0xf8 ∷ 0x00 ∷ 0xc8 ∷ 0xf1 ∷ 0xb3 ∷ 0x04 ∷ 0xf8 ∷ 0x07 ∷ 0x78 ∷ 0x01 ∷ [])
    ∷ row 4 16 13 0x01 50 0 (
        0x00 ∷ 0x06 ∷ 0x00 ∷ 0x00 ∷ 0x00 ∷ 0x24 ∷ 0x00 ∷ 0x00 ∷ 0x01 ∷ 0x44 ∷ 0x00 ∷ 0x00 ∷ 0x43
        ∷ 0x00 ∷ 0x00 ∷ 0xc8 ∷ 0x01 ∷ 0x88 ∷ 0x00 ∷ 0x00 ∷ 0x00 ∷ 0x00 ∷ 0x00 ∷ [])
    ∷ row 5 23 13 0x03 18 0 (
        0xf4 ∷ 0x03 ∷ 0x01 ∷ 0x00 ∷ 0x00 ∷ 0x27 ∷ 0x00 ∷ 0x00 ∷ 0x01 ∷ 0xc0 ∷ 0x01 ∷ 0x00 ∷ 0x42
        ∷ 0x00 ∷ 0x00 ∷ 0x00 ∷ 0x09 ∷ 0x8c ∷ 0x00 ∷ 0x00 ∷ 0x00 ∷ 0x00 ∷ 0x00 ∷ [])
    ∷ row 6 78 33 0x01 90 0 (
        0x8b ∷ 0x06 ∷ 0xff ∷ 0xbf ∷ 0x00 ∷ 0x2f ∷ 0xbc ∷ 0x00 ∷ 0x43 ∷ 0xff ∷ 0x85 ∷ 0x93 ∷ 0xc3
        ∷ 0x02 ∷ 0x00 ∷ 0xcc ∷ 0x0b ∷ 0xe0 ∷ 0xff ∷ 0x07 ∷ 0x40 ∷ 0x04 ∷ 0x04 ∷ [])
    ∷ row 7 29 14 0x01 31 0 (
        0x03 ∷ 0x06 ∷ 0x00 ∷ 0x80 ∷ 0x00 ∷ 0x33 ∷ 0x00 ∷ 0xc0 ∷ 0xcc ∷ 0x01 ∷ 0x00 ∷ 0x60 ∷ 0x71
        ∷ 0x00 ∷ 0x00 ∷ 0x3a ∷ 0x01 ∷ 0x00 ∷ 0x08 ∷ 0x00 ∷ 0x02 ∷ 0x00 ∷ 0x00 ∷ [])
    ∷ row 8 51 20 0x03 31 0 (
        0x00 ∷ 0x06 ∷ 0x00 ∷ 0xc0 ∷ 0x19 ∷ 0x2f ∷ 0xc0 ∷ 0x03 ∷ 0x30 ∷ 0xc1 ∷ 0x7b ∷ 0x1e ∷ 0x7d
        ∷ 0x05 ∷ 0x00 ∷ 0x00 ∷ 0x00 ∷ 0x20 ∷ 0x0c ∷ 0x01 ∷ 0xf6 ∷ 0x03 ∷ 0x00 ∷ [])
    ∷ row 9 29 20 0x01 88 0 (
        0x00 ∷ 0x06 ∷ 0x01 ∷ 0x00 ∷ 0xc0 ∷ 0x24 ∷ 0x02 ∷ 0x00 ∷ 0x01 ∷ 0xd4 ∷ 0x01 ∷ 0x00 ∷ 0x41
        ∷ 0x00 ∷ 0x01 ∷ 0xcc ∷ 0x09 ∷ 0x10 ∷ 0x08 ∷ 0x18 ∷ 0x0a ∷ 0x00 ∷ 0x00 ∷ [])
    ∷ row 10 27 17 0x01 57 0 (
        0x00 ∷ 0x6e ∷ 0x01 ∷ 0x00 ∷ 0x00 ∷ 0x20 ∷ 0x00 ∷ 0x00 ∷ 0x01 ∷ 0x41 ∷ 0x00 ∷ 0x00 ∷ 0x43
        ∷ 0x00 ∷ 0x78 ∷ 0xcc ∷ 0x01 ∷ 0x88 ∷ 0x01 ∷ 0x00 ∷ 0x48 ∷ 0x00 ∷ 0x00 ∷ [])
    ∷ []

-- The loop of `J1939_Customer_Profile_Find` over the profiles from `i` on
abbrev pub find_profile_in : List CustomerProfile → ℕ → Option CustomerProfile
find_profile_in [] profile_id = none
find_profile_in (p ∷ ps) profile_id =
    let rest = find_profile_in ps profile_id in if p.profile_id == profile_id then some p else rest

-- `J1939_Customer_Profile_Find`
unfoldable pub find_profile : ℕ → Option CustomerProfile
find_profile profile_id = find_profile_in customer_profiles profile_id

-- `J1939_Customer_Profile_Has_Key` of a profile that is not `NULL`
unfoldable pub profile_has_key : CustomerProfile → ℕ → Bool
profile_has_key profile signal_key =
    if ltb signal_key key_min || ltb key_max signal_key
    then false
    else bit_test (get_or profile.key_mask (u16 (signal_key - 1) / 8) 0) (u16 (signal_key - 1) % 8)
