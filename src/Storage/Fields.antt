-- ===== src/Storage/Fields.antt =====
-- MID/j1939_profile_storage.c: a field of the image reads back as it was written, and stays while
-- other fields are written.
use teep_j1939_patent.Base.{ℕ, ◌+◌, ◌*◌, ◌^◌, ◌≤◌, ◌<◌, ◌≡◌, ◌∙◌, ap, ap₂}
use teep_j1939_patent.Base.{
  arith, List, get_or, set, length, length-set, get_or-set_self, get_or-set_ne, inl, ◌⊎◌,
}
use teep_j1939_patent.Base.{bit_or, bit_or-add, bit_or_fields, ◌<<<◌, ◌>>>◌, u8, IsByte}
use teep_j1939_patent.Storage.Bytes.{read_u16, read_u32, write_u16, write_u32}

-- The four bytes as one sum
pub read_u16-sum :
    (x : List ℕ) (at : ℕ)
    → IsByte (get_or x at 0)
    → read_u16 x at ≡ get_or x (at + 1) 0 * 256 + get_or x at 0
read_u16-sum x at h = bit_or_fields 8 (get_or x (at + 1) 0) (get_or x at 0) h

pub read_u32-sum :
    (x : List ℕ) (at : ℕ)
    → IsByte (get_or x at 0)
    → IsByte (get_or x (at + 1) 0)
    → IsByte (get_or x (at + 2) 0)
    → read_u32 x at
      ≡ get_or x (at + 3) 0 * 2 ^ 24
        + get_or x (at + 2) 0 * 2 ^ 16
        + (get_or x (at + 1) 0 * 256 + get_or x at 0)
read_u32-sum x at h0 h1 h2 =
    let low = read_u16-sum x at h0 in
    let a = get_or x (at + 3) 0 in
    let b = get_or x (at + 2) 0 in
    let high = bit_or-add 24 (a <<< 24) (b <<< 16) (omega arith) (omega arith) in
    ap₂ bit_or high low
    ∙ bit_or-add 16 (a * 2 ^ 24 + b * 2 ^ 16) (get_or x (at + 1) 0 * 256 + get_or x at 0)
        (omega arith) (omega arith)

-- What is written
pub length-write_u16 : (x : List ℕ) (at v : ℕ) → length (write_u16 x at v) ≡ length x
length-write_u16 x at v =
    length-set (set x at (u8 v)) (at + 1) (u8 (v >>> 8)) ∙ length-set x at (u8 v)

pub length-write_u32 : (x : List ℕ) (at v : ℕ) → length (write_u32 x at v) ≡ length x
length-write_u32 x at v =
    length-write_u16 (write_u16 x at v) (at + 2) (v >>> 16) ∙ length-write_u16 x at v

pub get_or-write_u16_other :
    (x : List ℕ) (at v j : ℕ)
    → (j < at) ⊎ (at + 2 ≤ j)
    → get_or (write_u16 x at v) j 0 ≡ get_or x j 0
get_or-write_u16_other x at v j h =
    get_or-set_ne (set x at (u8 v)) (at + 1) j (u8 (v >>> 8)) 0 (λ e. omega (arith, h))
    ∙ get_or-set_ne x at j (u8 v) 0 (λ e. omega (arith, h))

pub get_or-write_u32_other :
    (x : List ℕ) (at v j : ℕ)
    → (j < at) ⊎ (at + 4 ≤ j)
    → get_or (write_u32 x at v) j 0 ≡ get_or x j 0
get_or-write_u32_other x at v j h =
    get_or-write_u16_other (write_u16 x at v) (at + 2) (v >>> 16) j (ground (arith, h))
    ∙ get_or-write_u16_other x at v j (ground (arith, h))

pub get_or-write_u16_low :
    (x : List ℕ) (at v : ℕ) → at + 2 ≤ length x → get_or (write_u16 x at v) at 0 ≡ u8 v
get_or-write_u16_low x at v room =
    get_or-set_ne (set x at (u8 v)) (at + 1) at (u8 (v >>> 8)) 0 (λ e. omega arith)
    ∙ get_or-set_self x at (u8 v) 0 (omega arith)

pub get_or-write_u16_high :
    (x : List ℕ) (at v : ℕ)
    → at + 2 ≤ length x
    → get_or (write_u16 x at v) (at + 1) 0 ≡ u8 (v >>> 8)
get_or-write_u16_high x at v room =
    get_or-set_self (set x at (u8 v)) (at + 1) (u8 (v >>> 8)) 0
      (omega (arith, length-set x at (u8 v)))

pub read_u16-write_u16 :
    (x : List ℕ) (at v : ℕ) → at + 2 ≤ length x → v < 2 ^ 16 → read_u16 (write_u16 x at v) at ≡ v
read_u16-write_u16 x at v room small =
    let low = get_or-write_u16_low x at v room in
    let high = get_or-write_u16_high x at v room in
    omega (arith, low, high, read_u16-sum (write_u16 x at v) at (omega (arith, low)))

-- The bytes of a field are those of its value.
pub read_u32-write_u32 :
    (x : List ℕ) (at v : ℕ) → at + 4 ≤ length x → v < 2 ^ 32 → read_u32 (write_u32 x at v) at ≡ v
read_u32-write_u32 x at v room small =
    let y = write_u16 x at v in
    let size = length-write_u16 x at v in
    let upper = get_or-write_u16_other y (at + 2) (v >>> 16) in
    let b0 = upper at (inl (omega arith)) ∙ get_or-write_u16_low x at v (omega arith) in
    let b1 = upper (at + 1) (inl (omega arith)) ∙ get_or-write_u16_high x at v (omega arith) in
    let b2 = get_or-write_u16_low y (at + 2) (v >>> 16) (omega (arith, size)) in
    let b3 =
      ap (λ i. get_or (write_u32 x at v) i 0) {x = at + 3} {y = at + 2 + 1} (omega arith)
      ∙ get_or-write_u16_high y (at + 2) (v >>> 16) (omega (arith, size)) in
    let sum =
      read_u32-sum (write_u32 x at v) at (omega (arith, b0)) (omega (arith, b1))
        (omega (arith, b2)) in
    omega (arith, b0, b1, b2, b3, sum)

-- A field is read from its own bytes.
pub read_u16-frame :
    (x y : List ℕ) (at : ℕ)
    → ((j : ℕ) → at ≤ j → j < at + 2 → get_or x j 0 ≡ get_or y j 0)
    → read_u16 x at ≡ read_u16 y at
read_u16-frame x y at h =
    ap₂ (λ high low. bit_or (high <<< 8) low) (h (at + 1) (omega arith) (omega arith))
      (h at (omega arith) (omega arith))

pub read_u32-frame :
    (x y : List ℕ) (at : ℕ)
    → ((j : ℕ) → at ≤ j → j < at + 4 → get_or x j 0 ≡ get_or y j 0)
    → read_u32 x at ≡ read_u32 y at
read_u32-frame x y at h =
    ap₂ bit_or
      (ap₂ (λ high low. bit_or (high <<< 24) (low <<< 16)) (h (at + 3) (omega arith) (omega arith))
        (h (at + 2) (omega arith) (omega arith)))
      (read_u16-frame x y at (λ j low high. h j low (omega arith)))
