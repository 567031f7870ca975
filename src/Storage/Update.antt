-- ===== src/Storage/Update.antt =====
-- MID/j1939_profile_storage.c: the two operations that replace the saved profile, as writes of the
-- slot that is not in use.
use teep_j1939_patent.Base.{
  ℕ, ◌+◌, ◌-◌, ◌≤◌, ◌<◌, ◌≡◌, refl, ◌∙◌, ap, sym, arith, List, Bool, inl, inr, ◌⊎◌,
}
use teep_j1939_patent.Base.{u8, u32, bit_xor}
use teep_j1939_patent.ValueStore.{Store}
use teep_j1939_patent.HalFlash.{Flash}
use teep_j1939_patent.Storage.Defs.{Result, ok, failed, Info, Storage, StorageStatus, slot_address}
use teep_j1939_patent.Storage.Defs.{storage_image_max_bytes}
use teep_j1939_patent.Storage.Parse.{image_length}
use teep_j1939_patent.Storage.Ops.{open_latest}
use teep_j1939_patent.Storage.Build.{build_image}
use teep_j1939_patent.Storage.Write.{write_slot}
use teep_j1939_patent.Storage.Save.{save, save_to, set_autostart, autostart_image}
use teep_j1939_patent.Storage.Walk.{Result-cases}
use teep_j1939_patent.Storage.Load.{IsImage, Loads}
use teep_j1939_patent.Storage.Local.{Loads-same}
use teep_j1939_patent.Storage.Latest.{open_latest-Opened}
use teep_j1939_patent.Storage.Isolated.{write_slot-SameOutside, write_slot-IsImage}
use teep_j1939_patent.Storage.Built.{Built, build_image-Built, build_image-IsImage}
use teep_j1939_patent.Storage.Restarted.{restarted, restarted-Built}

-- The operations that write a new profile image
pub data Update : Type 0 where
  op_save : Store → ℕ → ℕ → Bool → Update
  op_set_autostart : Bool → Update

unfoldable pub apply : Update → Storage → Result Info × Storage
apply (op_save values profile_id bitrate_bps autostart) s =
    save values profile_id bitrate_bps autostart s
apply (op_set_autostart enabled) s = set_autostart enabled s

abbrev pub other_slot : ℕ → ℕ
other_slot slot = 1 - slot

pub toggled : (slot : ℕ) → slot < 2 → u8 (bit_xor slot 1) ≡ other_slot slot
toggled slot below =
    let either : (slot ≡ 0) ⊎ (slot ≡ 1) = omega arith in
    elim either [
      | inl e ↦ ap (λ k. u8 (bit_xor k 1)) e ∙ ap other_slot (sym e)
      | inr e ↦ ap (λ k. u8 (bit_xor k 1)) e ∙ ap other_slot (sym e)
    ]

-- An update of a storage whose latest profile is `old`: it is refused and leaves the flash alone, or
-- it writes one built image to the other slot.
pub data Shape (s : Storage) (old : Info) (r : Result Info × Storage) : Type 0 where
  refused :
      (status : StorageStatus)
      → r.0 ≡ failed status
      → r.1.flash ≡ s.flash
      → IsImage r.1.image
      → Shape s old r
  writes :
      (image : List ℕ) (total : ℕ)
      → Built (u32 (old.sequence + 1)) total image
      → r ≡ write_slot (other_slot old.slot) total (record { image = image; flash = s.flash })
      → Shape s old r

save_to-Shape :
    (values : Store) (profile_id bitrate_bps : ℕ) (autostart : Bool) (s t : Storage) (old : Info)
    → t.flash ≡ s.flash
    → Shape s old (
        save_to values profile_id bitrate_bps autostart
          (u32 (old.sequence + 1))
          (other_slot old.slot)
          t)
unfolding save_to
save_to-Shape values profile_id bitrate_bps autostart s t old same =
    let sequence = u32 (old.sequence + 1) in
    let built = build_image values profile_id bitrate_bps autostart sequence in
    elim (Result-cases built.0) [
      | inr (status, k) ↦
          rw (k, save_to)
            (refused status refl same
              (build_image-IsImage values profile_id bitrate_bps autostart sequence))
      | inl (total, k) ↦
          rw (k, save_to)
            (writes built.1 total
              (build_image-Built values profile_id bitrate_bps autostart sequence total
                (omega arith) k)
              (ap
                (λ (f : Flash).
                  write_slot (other_slot old.slot) total (record { image = built.1; flash = f }))
                same))
    ]

pub apply-Shape :
    (op : Update) (s : Storage) (old : Info)
    → IsImage s.image
    → (open_latest s).0 ≡ ok old
    → Shape s old (apply op s)
unfolding apply save set_autostart
apply-Shape (op_save values profile_id bitrate_bps autostart) s old size e =
    let opened = open_latest-Opened s old size e in
    let target = toggled old.slot opened.in_range in
    rw (e, target, save)
      (save_to-Shape values profile_id bitrate_bps autostart s (open_latest s).1 old
        opened.same_flash)
apply-Shape (op_set_autostart enabled) s old size e =
    let opened = open_latest-Opened s old size e in
    let target = toggled old.slot opened.in_range in
    let t = (open_latest s).1 in
    let sequence = u32 (old.sequence + 1) in
    let holds = opened.holds in
    rw (e, target, set_autostart)
      (writes (restarted t.image sequence enabled)
        (image_length (autostart_image t.image sequence enabled))
        (restarted-Built t.image sequence enabled holds.sized holds.long holds.short (omega arith))
        (ap
          (λ (f : Flash).
            write_slot (other_slot old.slot)
              (image_length (autostart_image t.image sequence enabled))
              (record { image = restarted t.image sequence enabled; flash = f }))
          opened.same_flash))

-- The slot in use keeps its bytes, so it keeps loading.
pub kept_by_write :
    (s w : Storage) (old : Info) (total : ℕ)
    → IsImage s.image
    → IsImage w.image
    → w.flash ≡ s.flash
    → old.slot < 2
    → total ≤ storage_image_max_bytes
    → Loads old.slot s old
    → Loads old.slot (write_slot (other_slot old.slot) total w).1 old
kept_by_write s w old total size wide same below fits h =
    let either : (old.slot ≡ 0) ⊎ (old.slot ≡ 1) = omega arith in
    Loads-same old.slot s (write_slot (other_slot old.slot) total w).1 old size
      (write_slot-IsImage (other_slot old.slot) total w wide)
      (λ j near.
        ap (λ (f : Flash). f.memory (slot_address old.slot + j)) (sym same)
        ∙ sym (
            write_slot-SameOutside (other_slot old.slot) total w fits (slot_address old.slot + j)
              (ground (arith, either))))
      h
