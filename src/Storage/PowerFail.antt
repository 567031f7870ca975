-- ===== src/Storage/PowerFail.antt =====
-- MID/j1939_profile_storage.c: the saved profile as one value that an update replaces whole.
use teep_j1939_patent.Base.{
  ℕ, ◌+◌, ◌<◌, ◌^◌, ◌≡◌, refl, ◌∙◌, ap, sym, subst, arith, List, [], ◌∷◌, inl, inr, ◌⊎◌,
}
use teep_j1939_patent.Base.{u32, true, false, if◌then◌else◌}
use teep_j1939_patent.Storage.Defs.{
  Result, ok, failed, Info, Storage, StorageStatus, slot_address, sequence_newer,
}
use teep_j1939_patent.Storage.Defs.{off_sequence}
use teep_j1939_patent.Storage.Ops.{open_latest}
use teep_j1939_patent.Storage.Write.{write_slot}
use teep_j1939_patent.Storage.Walk.{Result-cases}
use teep_j1939_patent.Storage.Load.{IsImage, Loads, whole_image}
use teep_j1939_patent.Storage.Local.{Loads-same, Loads-Holds}
use teep_j1939_patent.Storage.Latest.{
  Opened, open_latest-Opened, open_latest_some, Loads-unique, open_latest_both,
}
use teep_j1939_patent.Storage.Isolated.{write_slot-IsImage}
use teep_j1939_patent.Storage.Written.{write_slot-Written}
use teep_j1939_patent.Storage.Fields.{read_u32-frame}
use teep_j1939_patent.Storage.Built.{Built}
use teep_j1939_patent.Storage.Update.{
  Update, apply, refused, writes, apply-Shape, other_slot, kept_by_write,
}

-- The abstract storage is the info of the latest profile. An update that succeeds replaces it by the
-- next one; an update that fails, which includes every loss of power on the way, leaves it, unless
-- the other slot has been written so far that it loads.
pub data Step (old : Info) : Result Info → Info → Type 0 where
  published :
      (new : Info)
      → new.slot ≡ other_slot old.slot
      → new.sequence ≡ u32 (old.sequence + 1)
      → Step old (ok new) new
  kept : (status : StorageStatus) → Step old (failed status) old
  other_loads :
      (status : StorageStatus) (latest : Info)
      → latest.slot ≡ other_slot old.slot
      → Step old (failed status) latest

-- After an update: the buffer is whole and the slot that was in use still loads.
pub record Safe (old : Info) (t : Storage) : Type 0 where
  pub sized : IsImage t.image
  pub loads : Loads old.slot t old

write-Safe :
    (s : Storage) (old : Info) (image : List ℕ) (total sequence : ℕ)
    → IsImage s.image
    → Opened s old (open_latest s).1
    → Built sequence total image
    → Safe old
        (write_slot (other_slot old.slot) total (record { image = image; flash = s.flash })).1
write-Safe s old image total sequence size opened built =
    let w : Storage = record { image = image; flash = s.flash } in
    record {
      sized = write_slot-IsImage (other_slot old.slot) total w built.sized;
      loads =
          kept_by_write s w old total size built.sized refl opened.in_range built.fits opened.loads;
    }

pub apply-Safe :
    (op : Update) (s : Storage) (old : Info)
    → IsImage s.image
    → (open_latest s).0 ≡ ok old
    → Safe old (apply op s).1
apply-Safe op s old size e =
    let opened = open_latest-Opened s old size e in
    elim (apply-Shape op s old size e) [
      | refused status k same whole ↦ record {
        sized = whole;
        loads =
            Loads-same old.slot s (apply op s).1 old size whole
              (λ j below. ap (λ f. f.memory (slot_address old.slot + j)) (sym same)) opened.loads;
      }
      | writes image total built k ↦
          subst (Safe old) (sym (ap (λ (r : Result Info × Storage). r.1) k))
            (write-Safe s old image total (u32 (old.sequence + 1)) size opened built)
    ]

next_is_newer :
    (a : ℕ)
    → a < 2 ^ 32
    → (sequence_newer (u32 (a + 1)) a ≡ true) × (sequence_newer a (u32 (a + 1)) ≡ false)
unfolding sequence_newer
next_is_newer a small = (ground arith, ground arith)

-- Both slots load and one holds the next sequence: it is the one that is opened.
newer_opened :
    (t : Storage) (old new : Info)
    → IsImage t.image
    → old.slot < 2
    → old.sequence < 2 ^ 32
    → new.sequence ≡ u32 (old.sequence + 1)
    → Loads old.slot t old
    → Loads (other_slot old.slot) t new
    → (open_latest t).0 ≡ ok new
newer_opened t old new size below small next first second =
    let newer = next_is_newer old.sequence small in
    let either : (old.slot ≡ 0) ⊎ (old.slot ≡ 1) = omega arith in
    elim either [
      | inl e ↦
          let both =
            open_latest_both t old new size (subst (λ i. Loads i t old) e first)
              (subst (λ i. Loads (other_slot i) t new) e second) in
          let chosen : sequence_newer new.sequence old.sequence ≡ true =
            ap (λ n. sequence_newer n old.sequence) next ∙ newer.0 in
          both ∙ ap (λ b. ok (if b then new else old)) chosen
      | inr e ↦
          let both =
            open_latest_both t new old size (subst (λ i. Loads (other_slot i) t new) e second)
              (subst (λ i. Loads i t old) e first) in
          let chosen : sequence_newer old.sequence new.sequence ≡ false =
            ap (sequence_newer old.sequence) next ∙ newer.1 in
          both ∙ ap (λ b. ok (if b then old else new)) chosen
    ]

-- What a write that returns an info has published
write-published :
    (s : Storage) (old new : Info) (image : List ℕ) (total : ℕ)
    → IsImage s.image
    → old.sequence < 2 ^ 32
    → Opened s old (open_latest s).1
    → Built (u32 (old.sequence + 1)) total image
    → (write_slot (other_slot old.slot) total (record { image = image; flash = s.flash })).0
      ≡ ok new
    → ((open_latest
          (write_slot (other_slot old.slot) total (record { image = image; flash = s.flash })).1).0
        ≡ ok new)
      × Step old (ok new) new
write-published s old new image total size small opened built e =
    let slot = other_slot old.slot in
    let w : Storage = record { image = image; flash = s.flash } in
    let t = (write_slot slot total w).1 in
    let whole = write_slot-IsImage slot total w built.sized in
    let written = write_slot-Written slot total w new built.fits e in
    let reader : Storage = record w { flash = t.flash } in
    let holds = Loads-Holds slot reader new built.sized written.loads in
    let named : new.slot ≡ slot = ap (λ (i : Info). i.slot) holds.read in
    let next : new.sequence ≡ u32 (old.sequence + 1) =
      ap (λ (i : Info). i.sequence) holds.read
      ∙ read_u32-frame (whole_image slot reader) image off_sequence (λ j low high.
        holds.header j (omega arith)
        ∙ written.bytes j (omega (arith, built.after_header)) (inl (omega arith)))
      ∙ built.numbered in
    let safe = write-Safe s old image total (u32 (old.sequence + 1)) size opened built in
    let loads = Loads-same slot reader t new built.sized whole (λ j below. refl) written.loads in
    (
      newer_opened t old new whole opened.in_range small next safe.loads loads,
      published new named next,
    )

-- An update of a storage with a latest profile is a step of the abstract storage, whatever the flash
-- controller answers: the storage opens again, with the next profile where the update reports
-- success, and otherwise with the old one or with one in the slot that was being written.
pub apply-Step :
    (op : Update) (s : Storage) (old : Info)
    → IsImage s.image
    → old.sequence < 2 ^ 32
    → (open_latest s).0 ≡ ok old
    → (latest : Info) × (((open_latest (apply op s).1).0 ≡ ok latest)
        × Step old (apply op s).0 latest)
apply-Step op s old size small e =
    let opened = open_latest-Opened s old size e in
    let t = (apply op s).1 in
    let safe = apply-Safe op s old size e in
    elim (Result-cases (apply op s).0) [
      | inr (status, failure) ↦
          let (latest, k) = open_latest_some t old.slot old safe.sized opened.in_range safe.loads in
          let after = open_latest-Opened t latest safe.sized k in
          let either : (latest.slot ≡ old.slot) ⊎ (latest.slot ≡ other_slot old.slot) =
            omega (arith, after.in_range, opened.in_range) in
          (
            latest,
            (
              k,
              elim either [
                | inl same ↦
                    let one =
                      Loads-unique old.slot t old latest safe.loads
                        (subst (λ i. Loads i t latest) same after.loads) in
                    subst (Step old (apply op s).0) one
                      (subst (λ r. Step old r old) (sym failure) (kept status))
                | inr other ↦
                    subst (λ r. Step old r latest) (sym failure) (other_loads status latest other)
              ],
            ),
          )
      | inl (new, success) ↦ elim (apply-Shape op s old size e) [
        | refused status k same whole ↦ absurd (ground arith)
        | writes image total built k ↦
            let result =
              write-published s old new image total size small opened built
                (sym (ap (λ (r : Result Info × Storage). r.0) k) ∙ success) in
            (
              new,
              (
                ap (λ (r : Result Info × Storage). (open_latest r.1).0) k ∙ result.0,
                subst (λ r. Step old r new) (sym success) result.1,
              ),
            )
      ]
    ]

-- Updates one after the other, each with the answers that the controller gives it
unfoldable pub run : List Update → Storage → Storage
run [] s = s
run (op ∷ ops) s = run ops (apply op s).1

-- Once a profile opens, a profile opens after any sequence of saves and changes of the autostart
-- flag, however each of them ends.
pub run-opens :
    (ops : List Update) (s : Storage) (old : Info)
    → IsImage s.image
    → (open_latest s).0 ≡ ok old
    → (latest : Info) × ((open_latest (run ops s)).0 ≡ ok latest)
unfolding run
run-opens [] s old size e = (old, e)
run-opens (op ∷ ops) s old size e =
    let opened = open_latest-Opened s old size e in
    let safe = apply-Safe op s old size e in
    let (next, k) =
      open_latest_some (apply op s).1 old.slot old safe.sized opened.in_range safe.loads in
    run-opens ops (apply op s).1 next safe.sized k
