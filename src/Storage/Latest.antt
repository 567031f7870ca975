-- ===== src/Storage/Latest.antt =====
-- MID/j1939_profile_storage.c: what `Profile_Storage_Open_Latest` selects.
use teep_j1939_patent.Base.{ℕ, ◌<◌, ◌≡◌, refl, ◌∙◌, ap, sym, arith, List}
use teep_j1939_patent.Base.{Bool-cases, inl, inr, ◌⊎◌, subst, if◌then◌else◌, Option, none, some}
use teep_j1939_patent.HalFlash.{flash_read}
use teep_j1939_patent.Storage.Bytes.{copy_in}
use teep_j1939_patent.Storage.Defs.{Result, ok, failed, Info, Storage, slot_address, sequence_newer}
use teep_j1939_patent.Storage.Parse.{image_length}
use teep_j1939_patent.Storage.Ops.{load_slot, load_header, load_checked, load_whole}
use teep_j1939_patent.Storage.Ops.{open_latest, select_slot}
use teep_j1939_patent.Storage.Reads.{length-copy_in}
use teep_j1939_patent.Storage.Walk.{Result-cases}
use teep_j1939_patent.Storage.Load.{IsImage, Loads, load_slot-Loads, Loads-load_slot, whole_image}
use teep_j1939_patent.Storage.Local.{Loads-same, Holds, Loads-Holds}

load_whole-IsImage :
    (slot : ℕ) (image : List ℕ) (o : Option (List ℕ))
    → IsImage image
    → IsImage (load_whole slot image o).1
unfolding load_whole
load_whole-IsImage slot image none size = size
load_whole-IsImage slot image (some bytes) size = length-copy_in image 0 bytes ∙ size

load_checked-IsImage :
    (slot : ℕ) (m : ℕ → ℕ) (image : List ℕ) → IsImage image → IsImage (load_checked slot m image).1
unfolding load_checked
load_checked-IsImage slot m image size =
    let total = image_length image in
    let last = load_whole-IsImage slot image (flash_read m (slot_address slot) total) size in
    ground (arith, last)

load_header-IsImage :
    (slot : ℕ) (s : Storage) (o : Option (List ℕ))
    → IsImage s.image
    → IsImage (load_header slot s o).1
unfolding load_header
load_header-IsImage slot s none size = size
load_header-IsImage slot s (some bytes) size =
    load_checked-IsImage slot s.flash.memory (copy_in s.image 0 bytes)
      (length-copy_in s.image 0 bytes ∙ size)

pub load_slot-IsImage : (slot : ℕ) (s : Storage) → IsImage s.image → IsImage (load_slot slot s).1
unfolding load_slot
load_slot-IsImage slot s size = load_header-IsImage slot s _ size

-- A slot that loads, loads in every buffer.
pub Loads-with :
    (slot : ℕ) (s : Storage) (image : List ℕ) (info : Info)
    → IsImage s.image
    → IsImage image
    → Loads slot s info
    → Loads slot (record s { image = image }) info
Loads-with slot s image info size other h =
    Loads-same slot s (record s { image = image }) info size other (λ j below. refl) h

Loads-without :
    (slot : ℕ) (s : Storage) (image : List ℕ) (info : Info)
    → IsImage s.image
    → IsImage image
    → Loads slot (record s { image = image }) info
    → Loads slot s info
Loads-without slot s image info size other h =
    Loads-same slot (record s { image = image }) s info other size (λ j below. refl) h

Loads-result :
    (slot : ℕ) (s : Storage) (image : List ℕ) (info : Info)
    → IsImage s.image
    → IsImage image
    → Loads slot s info
    → (load_slot slot (record s { image = image })).0 ≡ ok info
Loads-result slot s image info size other h =
    ap (λ (r : Result Info × List ℕ). r.0)
      (Loads-load_slot slot (record s { image = image }) info
        (Loads-with slot s image info size other h))

-- The choice between the loads of the two slots, and the buffer of the second
abbrev selected : Storage → Result ℕ
selected s = select_slot (load_slot 0 s).0 (load_slot 1 (record s { image = (load_slot 0 s).1 })).0

abbrev second_image : Storage → List ℕ
second_image s = (load_slot 1 (record s { image = (load_slot 0 s).1 })).1

second_image-IsImage : (s : Storage) → IsImage s.image → IsImage (second_image s)
second_image-IsImage s size =
    load_slot-IsImage 1 (record s { image = (load_slot 0 s).1 }) (load_slot-IsImage 0 s size)

open_latest-selected :
    (s : Storage) (slot : ℕ) (info : Info)
    → IsImage s.image
    → selected s ≡ ok slot
    → Loads slot s info
    → open_latest s
      ≡ (ok info, record s { image = whole_image slot (record s { image = second_image s }) })
unfolding open_latest
open_latest-selected s slot info size chosen h =
    let t : Storage = record s { image = second_image s } in
    let loaded =
      Loads-load_slot slot t info
        (Loads-with slot s (second_image s) info size (second_image-IsImage s size) h) in
    rw (chosen, loaded, open_latest) refl

-- Both slots load: the second is taken only where its sequence is newer.
pub open_latest_both :
    (s : Storage) (a b : Info)
    → IsImage s.image
    → Loads 0 s a
    → Loads 1 s b
    → (open_latest s).0 ≡ ok (if sequence_newer b.sequence a.sequence then b else a)
unfolding select_slot
open_latest_both s a b size first second =
    let x = ap (λ (r : Result Info × List ℕ). r.0) (Loads-load_slot 0 s a first) in
    let y = Loads-result 1 s (load_slot 0 s).1 b size (load_slot-IsImage 0 s size) second in
    elim (Bool-cases (sequence_newer b.sequence a.sequence)) [
      | inl newer ↦
          let chosen : selected s ≡ ok 1 = rw (x, y, newer, select_slot) refl in
          rw newer (
            ap (λ (r : Result Info × Storage). r.0) (open_latest-selected s 1 b size chosen second))
      | inr older ↦
          let chosen : selected s ≡ ok 0 = rw (x, y, older, select_slot) refl in
          rw older
            (ap (λ (r : Result Info × Storage). r.0) (open_latest-selected s 0 a size chosen first))
    ]

ok-inj : {a b : Info} → ok a ≡ ok b → a ≡ b
ok-inj e = grind arith

select_slot-loaded :
    (x y : Result Info) (slot : ℕ)
    → select_slot x y ≡ ok slot
    → ((slot ≡ 0) × ((a : Info) × (x ≡ ok a))) ⊎ ((slot ≡ 1) × ((b : Info) × (y ≡ ok b)))
unfolding select_slot
select_slot-loaded (ok a) (ok b) slot e = elim (Bool-cases (sequence_newer b.sequence a.sequence)) [
  | inl newer ↦ inr (grind arith, (b, refl))
  | inr older ↦ inl (grind arith, (a, refl))
]
select_slot-loaded (ok a) (failed t) slot e = inl (grind arith, (a, refl))
select_slot-loaded (failed r) (ok b) slot e = inr (grind arith, (b, refl))
select_slot-loaded (failed r) (failed t) slot e = absurd (ground arith)

-- Where a slot loads, a slot is chosen.
select_slot_some :
    (x y : Result Info) (info : Info)
    → (x ≡ ok info) ⊎ (y ≡ ok info)
    → (slot : ℕ) × (select_slot x y ≡ ok slot)
unfolding select_slot
select_slot_some (ok a) (ok b) info h =
    (if sequence_newer b.sequence a.sequence then 1 else 0, refl)
select_slot_some (ok a) (failed t) info h = (0, refl)
select_slot_some (failed r) (ok b) info h = (1, refl)
select_slot_some (failed r) (failed t) info h = absurd (ground (arith, h))

chosen-Loads :
    (s : Storage) (slot : ℕ)
    → IsImage s.image
    → selected s ≡ ok slot
    → (slot < 2) × ((info : Info) × Loads slot s info)
chosen-Loads s slot size chosen = elim (select_slot-loaded _ _ slot chosen) [
  | inl (e, (a, k)) ↦
      (omega (arith, e), (a, subst (λ i. Loads i s a) (sym e) (load_slot-Loads 0 s a k)))
  | inr (e, (b, k)) ↦
      let between = load_slot-IsImage 0 s size in
      (
        omega (arith, e),
        (
          b,
          subst (λ i. Loads i s b) (sym e)
              (Loads-without 1 s (load_slot 0 s).1 b size between
                (load_slot-Loads 1 (record s { image = (load_slot 0 s).1 }) b k)),
        ),
      )
]

-- What `Profile_Storage_Open_Latest` has done when it returns an info: the slot it names loads with
-- that info, `s_image` holds the slot's image, and the flash is as it was.
pub record Opened (s : Storage) (info : Info) (t : Storage) : Type 0 where
  pub in_range : info.slot < 2
  pub loads : Loads info.slot s info
  pub holds : Holds info.slot s.flash.memory t.image info
  pub same_flash : t.flash ≡ s.flash

open_latest_with :
    (s : Storage) (slot : ℕ) (info : Info)
    → IsImage s.image
    → slot < 2
    → selected s ≡ ok slot
    → Loads slot s info
    → ((open_latest s).0 ≡ ok info) × Opened s info (open_latest s).1
open_latest_with s slot info size below chosen h =
    let t : Storage = record s { image = second_image s } in
    let between = second_image-IsImage s size in
    let e = open_latest-selected s slot info size chosen h in
    let holds =
      Loads-Holds slot t info between (Loads-with slot s (second_image s) info size between h) in
    let named : slot ≡ info.slot = ap (λ (i : Info). i.slot) (sym holds.read) in
    (
      ap (λ (r : Result Info × Storage). r.0) e,
      subst (Opened s info) (sym (ap (λ (r : Result Info × Storage). r.1) e)) record {
        in_range = omega (arith, named);
        loads = subst (λ i. Loads i s info) named h;
        holds = subst (λ i. Holds i s.flash.memory (whole_image slot t) info) named holds;
        same_flash = refl;
      },
    )

pub open_latest-Opened :
    (s : Storage) (info : Info)
    → IsImage s.image
    → (open_latest s).0 ≡ ok info
    → Opened s info (open_latest s).1
unfolding open_latest
open_latest-Opened s info size e = elim (Result-cases (selected s)) [
  | inr (status, k) ↦ absurd (grind arith)
  | inl (slot, k) ↦
      let (below, (found, h)) = chosen-Loads s slot size k in
      let (result, opened) = open_latest_with s slot found size below k h in
      let same : found ≡ info = ok-inj (sym result ∙ e) in
      subst (λ i. Opened s i (open_latest s).1) same opened
]

-- Where a slot loads, some info is returned.
pub open_latest_some :
    (s : Storage) (slot : ℕ) (info : Info)
    → IsImage s.image
    → slot < 2
    → Loads slot s info
    → (latest : Info) × ((open_latest s).0 ≡ ok latest)
open_latest_some s slot info size below h =
    let first_or_second : (slot ≡ 0) ⊎ (slot ≡ 1) = omega arith in
    let between = load_slot-IsImage 0 s size in
    let (chosen, k) =
      select_slot_some (load_slot 0 s).0 (load_slot 1 (record s { image = (load_slot 0 s).1 })).0
        info
        (elim first_or_second [
          | inl e ↦ inl (
              subst (λ i. (load_slot i s).0 ≡ ok info) e
                (Loads-result slot s s.image info size size h))
          | inr e ↦ inr (
              subst (λ i. (load_slot i (record s { image = (load_slot 0 s).1 })).0 ≡ ok info) e
                (Loads-result slot s (load_slot 0 s).1 info size between h))
        ]) in
    let (fits, (found, loads)) = chosen-Loads s chosen size k in
    (found, (open_latest_with s chosen found size fits k loads).0)

-- A slot loads with one info.
pub Loads-unique : (slot : ℕ) (s : Storage) (a b : Info) → Loads slot s a → Loads slot s b → a ≡ b
Loads-unique slot s a b x y = ok-inj (sym x.accepted ∙ y.accepted)
