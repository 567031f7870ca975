-- ===== src/Storage/Reads.antt =====
-- MID/j1939_profile_storage.c: what the image holds after a copy from the flash.
use teep_j1939_patent.Base.{ℕ, zero, suc, ◌+◌, ◌≤◌, ◌<◌, ◌≡◌, refl, ◌∙◌, ap, ap₂, arith}
use teep_j1939_patent.Base.{List, [], ◌∷◌, get_or, set, length, length-set, get_or-set_self}
use teep_j1939_patent.Base.{get_or-set_ne, bit_or, ◌<<<◌}
use teep_j1939_patent.HalFlash.{bytes_at}
use teep_j1939_patent.Storage.Bytes.{copy_in, bytes_from, read_u16, read_u32}

pub length-bytes_at : (m : ℕ → ℕ) (a n : ℕ) → length (bytes_at m a n) ≡ n
length-bytes_at m a zero = refl
length-bytes_at m a (suc n) = ap suc (length-bytes_at m (suc a) n)

pub get_or-bytes_at : (m : ℕ → ℕ) (a n i d : ℕ) → i < n → get_or (bytes_at m a n) i d ≡ m (a + i)
get_or-bytes_at m a zero i d h = absurd (omega arith)
get_or-bytes_at m a (suc n) zero d h = ap m (omega arith)
get_or-bytes_at m a (suc n) (suc i) d h =
    get_or-bytes_at m (suc a) n i d (omega arith) ∙ ap m (omega arith)

pub bytes_at_ext :
    (m w : ℕ → ℕ) (a n : ℕ)
    → ((i : ℕ) → i < n → m (a + i) ≡ w (a + i))
    → bytes_at m a n ≡ bytes_at w a n
bytes_at_ext m w a zero h = refl
bytes_at_ext m w a (suc n) h =
    ap₂ ◌∷◌ (ap m (omega arith) ∙ h 0 (omega arith) ∙ ap w (omega arith)) (
      bytes_at_ext m w (suc a) n
        (λ i below. ap m (omega arith) ∙ h (suc i) (omega arith) ∙ ap w (omega arith)))

pub length-copy_in :
    (image : List ℕ) (at : ℕ) (bs : List ℕ) → length (copy_in image at bs) ≡ length image
length-copy_in image at [] = refl
length-copy_in image at (b ∷ bs) =
    length-copy_in (set image at b) (suc at) bs ∙ length-set image at b

pub copy_in_before :
    (image : List ℕ) (at : ℕ) (bs : List ℕ) (j d : ℕ)
    → j < at
    → get_or (copy_in image at bs) j d ≡ get_or image j d
copy_in_before image at [] j d h = refl
copy_in_before image at (b ∷ bs) j d h =
    copy_in_before (set image at b) (suc at) bs j d (omega arith)
    ∙ get_or-set_ne image at j b d (λ e. omega arith)

pub copy_in_after :
    (image : List ℕ) (at : ℕ) (bs : List ℕ) (j d : ℕ)
    → at + length bs ≤ j
    → get_or (copy_in image at bs) j d ≡ get_or image j d
copy_in_after image at [] j d h = refl
copy_in_after image at (b ∷ bs) j d h =
    copy_in_after (set image at b) (suc at) bs j d (omega arith)
    ∙ get_or-set_ne image at j b d (λ e. omega arith)

pub copy_in_within :
    (image : List ℕ) (at : ℕ) (bs : List ℕ) (i d : ℕ)
    → i < length bs
    → at + length bs ≤ length image
    → get_or (copy_in image at bs) (at + i) d ≡ get_or bs i d
copy_in_within image at [] i d h room = absurd (omega arith)
copy_in_within image at (b ∷ bs) zero d h room =
    let here : at + zero ≡ at = omega arith in
    rw (here, copy_in_before (set image at b) (suc at) bs at d (omega arith))
      (get_or-set_self image at b d (omega arith))
copy_in_within image at (b ∷ bs) (suc i) d h room =
    let here : at + suc i ≡ suc at + i = omega arith in
    rw here (
      copy_in_within (set image at b) (suc at) bs i d (omega arith)
        (omega (arith, length-set image at b)))

-- Two images hold the same bytes below `n`.
abbrev pub SameBelow : ℕ → List ℕ → List ℕ → Type 0
SameBelow n x y = (j : ℕ) → j < n → get_or x j 0 ≡ get_or y j 0

pub read_u16_same :
    (n : ℕ) (x y : List ℕ) (at : ℕ) → SameBelow n x y → at + 2 ≤ n → read_u16 x at ≡ read_u16 y at
read_u16_same n x y at same room =
    ap₂ (λ high low. bit_or (high <<< 8) low) (same (at + 1) (omega arith)) (same at (omega arith))

pub read_u32_same :
    (n : ℕ) (x y : List ℕ) (at : ℕ) → SameBelow n x y → at + 4 ≤ n → read_u32 x at ≡ read_u32 y at
read_u32_same n x y at same room =
    ap₂ bit_or
      (ap₂ (λ high low. bit_or (high <<< 24) (low <<< 16)) (same (at + 3) (omega arith))
        (same (at + 2) (omega arith)))
      (read_u16_same n x y at same (omega arith))

pub bytes_from_same :
    (n : ℕ) (x y : List ℕ) (at len : ℕ)
    → SameBelow n x y
    → at + len ≤ n
    → bytes_from x at len ≡ bytes_from y at len
bytes_from_same n x y at zero same room = refl
bytes_from_same n x y at (suc len) same room =
    ap₂ ◌∷◌ (same at (omega arith)) (bytes_from_same n x y (suc at) len same (omega arith))
