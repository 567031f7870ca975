-- ===== src/Storage/Flag.antt =====
-- MID/j1939_profile_storage.c: `Profile_Storage_Set_Autostart` keeps the profile that it copies.
use teep_j1939_patent.Base.{ℕ, ◌+◌, ◌<◌, ◌≤◌, ◌≡◌, refl, ◌∙◌, ap, sym, arith, List, Bool, inl, inr}
use teep_j1939_patent.Base.{u32, if◌then◌else◌, get_or}
use teep_j1939_patent.Storage.Bytes.{read_u16, read_u32}
use teep_j1939_patent.Storage.Defs.{
  ok, Info, Storage, flag_autostart, slot_address, storage_header_bytes,
}
use teep_j1939_patent.Storage.Defs.{off_sequence, off_config_crc, off_bitrate_bps, off_signal_count}
use teep_j1939_patent.Storage.Defs.{off_scalar_count, off_flags, off_profile_id, off_blob_count}
use teep_j1939_patent.Storage.Parse.{image_length, info_of}
use teep_j1939_patent.Storage.Ops.{open_latest}
use teep_j1939_patent.Storage.Write.{write_slot}
use teep_j1939_patent.Storage.Save.{set_autostart, autostart_image}
use teep_j1939_patent.Storage.Walk.{Result-cases}
use teep_j1939_patent.Storage.Load.{IsImage, whole_image}
use teep_j1939_patent.Storage.Local.{Loads-Holds}
use teep_j1939_patent.Storage.Latest.{open_latest-Opened}
use teep_j1939_patent.Storage.Written.{write_slot-Written}
use teep_j1939_patent.Storage.Fields.{read_u16-frame, read_u32-frame}
use teep_j1939_patent.Storage.Restarted.{
  changed-length, Untouched, restarted, restarted-Built, restarted-Untouched,
}
use teep_j1939_patent.Storage.Restarted.{restarted_flags}
use teep_j1939_patent.Storage.Update.{other_slot, toggled}

-- The info of `old` after a change of its flag
abbrev pub with_flag : Info → Bool → Info
with_flag old enabled = record old {
  sequence = u32 (old.sequence + 1);
  flags = if enabled then flag_autostart else 0;
  slot = other_slot old.slot;
}

-- An image whose header is that of a restarted one has the info of the old one with the flag.
info_of-restarted :
    (x image : List ℕ) (old : Info) (enabled : Bool) (sequence : ℕ)
    → IsImage image
    → old ≡ record (info_of image) { slot = old.slot }
    → read_u32 x off_sequence ≡ sequence
    → ((j : ℕ) → j < 40 → get_or x j 0 ≡ get_or (restarted image sequence enabled) j 0)
    → record (info_of x) { slot = other_slot old.slot } ≡ record old {
      sequence = sequence;
      flags = if enabled then flag_autostart else 0;
      slot = other_slot old.slot;
    }
info_of-restarted x image old enabled sequence size named numbered header =
    let byte : (j : ℕ) → j < 40 → Untouched j → get_or x j 0 ≡ get_or image j 0 =
      λ j below free. header j below ∙ restarted-Untouched image sequence enabled j free in
    let config : read_u32 x off_config_crc ≡ old.config_crc =
      read_u32-frame x image off_config_crc (λ j low high.
        byte j (omega arith)
          (inr (omega arith), inl (omega arith), inl (omega arith), inl (omega arith)))
      ∙ sym (ap (λ (i : Info). i.config_crc) named) in
    let bitrate : read_u32 x off_bitrate_bps ≡ old.bitrate_bps =
      read_u32-frame x image off_bitrate_bps (λ j low high.
        byte j (omega arith)
          (inr (omega arith), inr (omega arith), inl (omega arith), inl (omega arith)))
      ∙ sym (ap (λ (i : Info). i.bitrate_bps) named) in
    let signals : read_u16 x off_signal_count ≡ old.signal_count =
      read_u16-frame x image off_signal_count (λ j low high.
        byte j (omega arith)
          (inr (omega arith), inr (omega arith), inl (omega arith), inl (omega arith)))
      ∙ sym (ap (λ (i : Info). i.signal_count) named) in
    let scalars : read_u16 x off_scalar_count ≡ old.scalar_count =
      read_u16-frame x image off_scalar_count (λ j low high.
        byte j (omega arith)
          (inr (omega arith), inr (omega arith), inl (omega arith), inl (omega arith)))
      ∙ sym (ap (λ (i : Info). i.scalar_count) named) in
    let profile : get_or x off_profile_id 0 ≡ old.profile_id =
      byte off_profile_id (omega arith)
        (inr (omega arith), inr (omega arith), inl (omega arith), inl (omega arith))
      ∙ sym (ap (λ (i : Info). i.profile_id) named) in
    let blobs : get_or x off_blob_count 0 ≡ old.blob_count =
      byte off_blob_count (omega arith)
        (inr (omega arith), inr (omega arith), inl (omega arith), inl (omega arith))
      ∙ sym (ap (λ (i : Info). i.blob_count) named) in
    let flags : read_u16 x off_flags ≡ (if enabled then flag_autostart else 0) =
      read_u16-frame x (restarted image sequence enabled) off_flags
        (λ j low high. header j (omega arith))
      ∙ restarted_flags image sequence enabled size in
    rw (numbered, config, bitrate, signals, scalars, profile, blobs, flags) refl

-- Two memories hold the same bytes, the one in slot `a` and the other in slot `b`, between the
-- header and the end of an image of `total` bytes: the keys, the values and the blob.
abbrev pub SameRecords : ℕ → (ℕ → ℕ) → ℕ → ℕ → (ℕ → ℕ) → Type 0
SameRecords total m a b w =
    (j : ℕ) → storage_header_bytes ≤ j → j < total → m (slot_address a + j) ≡ w (slot_address b + j)

-- A change of the autostart flag that returns an info needs a latest profile. The info is that
-- profile's with the flag asked for, the next sequence and the other slot: the configuration CRC, the
-- bitrate, the counts and the profile's number are as before. Every byte of the profile's records,
-- from the end of the header to the end of the image, is in the new slot as it was in the old one.
pub set_autostart-with_flag :
    (enabled : Bool) (s : Storage) (new : Info)
    → IsImage s.image
    → (set_autostart enabled s).0 ≡ ok new
    → (old : Info) × (((open_latest s).0 ≡ ok old)
        × (new ≡ with_flag old enabled)
        × SameRecords
            (image_length (open_latest s).1.image)
            (set_autostart enabled s).1.flash.memory
            new.slot
            old.slot
            s.flash.memory)
unfolding set_autostart
set_autostart-with_flag enabled s new size e = elim (Result-cases (open_latest s).0) [
  | inr (status, k) ↦ absurd (grind arith)
  | inl (old, k) ↦
      let opened = open_latest-Opened s old size k in
      let holds = opened.holds in
      let t = (open_latest s).1 in
      let sequence = u32 (old.sequence + 1) in
      let image = restarted t.image sequence enabled in
      let slot = other_slot old.slot in
      let total = image_length (autostart_image t.image sequence enabled) in
      let w : Storage = record t { image = image } in
      let built =
        restarted-Built t.image sequence enabled holds.sized holds.long holds.short (omega arith) in
      let result : (write_slot slot total w).0 ≡ ok new =
        rw (k, toggled old.slot opened.in_range, set_autostart) at e in
      let written = write_slot-Written slot total w new built.fits result in
      let reader : Storage = record w { flash = (write_slot slot total w).1.flash } in
      let after = Loads-Holds slot reader new built.sized written.loads in
      let bytes : (j : ℕ) → j < 40 → get_or (whole_image slot reader) j 0 ≡ get_or image j 0 =
        λ j below.
          after.header j (omega arith)
          ∙ written.bytes j (omega (arith, built.after_header)) (inl below) in
      let numbered =
        read_u32-frame (whole_image slot reader) image off_sequence
          (λ j low high. bytes j (omega arith))
        ∙ built.numbered in
      let same_info =
        after.read
        ∙ info_of-restarted (whole_image slot reader) t.image old enabled sequence holds.sized
            holds.read numbered bytes in
      let run : (set_autostart enabled s).1 ≡ (write_slot slot total w).1 =
        rw (k, toggled old.slot opened.in_range, set_autostart) refl in
      let long = changed-length t.image sequence enabled in
      (
        old,
        (
          k,
          same_info,
          λ j low high.
              ap (λ (u : Storage). u.flash.memory (slot_address new.slot + j)) run
              ∙ ap
                  (λ (i : Info). (write_slot slot total w).1.flash.memory (slot_address i.slot + j))
                  same_info
              ∙ written.bytes j (omega (arith, high, long)) (inr (omega (arith, low)))
              ∙ restarted-Untouched t.image sequence enabled j (
                inr (omega (arith, low)),
                inr (omega (arith, low)),
                inr (omega (arith, low)),
                inr (omega (arith, low)),
              )
              ∙ holds.body j high,
        ),
      )
]
