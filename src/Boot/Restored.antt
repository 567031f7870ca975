-- ===== src/Boot/Restored.antt =====
-- APP/app_boot.c: what is in the generator after App_Boot_Restore.
use teep_j1939_patent.Base.{◌≡◌, ◌≢◌, ◌/◌, refl, ap, ◌∙◌, inl, inr, ◌⊎◌, arith}
use teep_j1939_patent.Base.{Bool, true, false, Bool-cases, if◌then◌else◌}
use teep_j1939_patent.Storage.Defs.{Info, StorageStatus, ok, failed, storage_empty}
use teep_j1939_patent.Storage.Ops.{open_latest}
use teep_j1939_patent.Storage.Load.{IsImage}
use teep_j1939_patent.Storage.Walk.{Result-cases}
use teep_j1939_patent.Storage.Latest.{open_latest-Opened}
use teep_j1939_patent.Storage.Again.{open_latest-same}
use teep_j1939_patent.Control.Backend.{
  PersistenceStatus, persistence_unsupported_config, persistence_ok,
}
use teep_j1939_patent.Control.Backend.{PersistenceInfo}
use teep_j1939_patent.Generator.{Generator}
use teep_j1939_patent.Persistence.{map_status, has_autostart, persistence_load, info_from}
use teep_j1939_patent.Persistence.{map_result, persistence_get_info}
use teep_j1939_patent.Persistence.Loaded.{persistence_load-checked}
use teep_j1939_patent.Persistence.ReadOnly.{open_latest-flash, persistence_load-flash}
use teep_j1939_patent.Boot.{Boot, boot_empty, boot_loaded, boot_load_failed, boot_defaults, wanted}
use teep_j1939_patent.Boot.{autostart_off, bitrate_supported, boot_fail, restore_empty}
use teep_j1939_patent.Boot.{restore_loaded, restore_opened, boot_restore}

-- Why a restore refuses what is saved, with the status that it reports: no slot loads though the
-- storage is not empty, the bitrate is not supported, or the load fails.
pub data Refused {S : Type 0} (g : Generator S) (old : Boot S) (st : PersistenceStatus)
    : Type 0 where
  unreadable :
      (status : StorageStatus)
      → (open_latest old.saving.storage).0 ≡ failed status
      → status ≢ storage_empty
      → st ≡ map_status status
      → Refused g old st
  wrong_rate :
      (info : Info)
      → (open_latest old.saving.storage).0 ≡ ok info
      → info.bitrate_bps ≢ 250000
      → info.bitrate_bps ≢ 500000
      → st ≡ persistence_unsupported_config
      → Refused g old st
  load_fails :
      (info : Info)
      → (open_latest old.saving.storage).0 ≡ ok info
      → st
        ≡ (persistence_load g
            (record old.saving { storage = (open_latest old.saving.storage).1 })).0
      → st ≢ persistence_ok
      → Refused g old st

-- The four ends of a restore. Nothing is saved, and the defaults are taken if the caller asks for
-- them; what is saved is refused for one of the reasons above, and the generator is cleared; or the saved profile is loaded, the configuration CRC
-- that the generator computes is the saved one, and it is to be started only if its flag says so.
pub data Restored {S : Type 0} (g : Generator S) (suppress defaults : Bool) (old new : Boot S)
    : Type 0 where
  nothing_saved :
      defaults ≡ false
      → (open_latest old.saving.storage).0 ≡ failed storage_empty
      → new.result ≡ boot_empty
      → new.autostart ≡ autostart_off
      → new.saving.app ≡ old.saving.app
      → Restored g suppress defaults old new
  defaults_taken :
      defaults ≡ true
      → (open_latest old.saving.storage).0 ≡ failed storage_empty
      → new.result ≡ boot_defaults
      → new.autostart ≡ wanted suppress
      → new.saving.app ≡ g.load_defaults old.saving.app
      → Restored g suppress defaults old new
  cleared :
      (st : PersistenceStatus) (s : S)
      → Refused g old st
      → new.result ≡ boot_load_failed
      → new.load_status ≡ st
      → new.autostart ≡ autostart_off
      → new.config_crc ≡ 0
      → new.saving.app ≡ g.clear s
      → Restored g suppress defaults old new
  restored :
      (info : Info)
      → (open_latest old.saving.storage).0 ≡ ok info
      → new.result ≡ boot_loaded
      → (info.bitrate_bps ≡ 250000) ⊎ (info.bitrate_bps ≡ 500000)
      → new.bitrate_kbps ≡ info.bitrate_bps / 1000
      → new.config_crc ≡ info.config_crc
      → g.get_config_crc new.saving.app ≡ info.config_crc
      → new.autostart ≡ (if has_autostart info then wanted suppress else autostart_off)
      → Restored g suppress defaults old new

module _ {S : Type 0} (g : Generator S) where
  supported_rate :
      (info : Info)
      → bitrate_supported info.bitrate_bps ≡ true
      → (info.bitrate_bps ≡ 250000) ⊎ (info.bitrate_bps ≡ 500000)
  unfolding bitrate_supported
  supported_rate info e = ground (arith, e)

  unsupported_rate :
      (info : Info)
      → bitrate_supported info.bitrate_bps ≡ false
      → (info.bitrate_bps ≢ 250000) × (info.bitrate_bps ≢ 500000)
  unfolding bitrate_supported
  unsupported_rate info e = (λ k. ground (arith, e, k), λ k. ground (arith, e, k))

  boot_fail-Restored :
      (suppress defaults : Bool) (st : PersistenceStatus) (old boot : Boot S)
      → Refused g old st
      → Restored g suppress defaults old (boot_fail g st boot)
  unfolding boot_fail
  boot_fail-Restored suppress defaults st old boot why =
      cleared st boot.saving.app why refl refl refl refl refl

  restore_empty-Restored :
      (suppress defaults : Bool) (old boot : Boot S)
      → (open_latest old.saving.storage).0 ≡ failed storage_empty
      → boot.result ≡ boot_empty
      → boot.autostart ≡ autostart_off
      → boot.saving.app ≡ old.saving.app
      → Restored g suppress defaults old (restore_empty g suppress defaults boot)
  unfolding restore_empty
  restore_empty-Restored suppress true old boot e r a s =
      defaults_taken refl e refl refl (ap g.load_defaults s)
  restore_empty-Restored suppress false old boot e r a s = nothing_saved refl e r a s

  restore_opened-cases :
      (suppress defaults : Bool) (info : PersistenceInfo) (status : StorageStatus) (boot : Boot S)
      → (status ≡ storage_empty)
        ⊎ ((status ≢ storage_empty)
            × (restore_opened g suppress defaults info (map_status status) boot
                ≡ boot_fail g (map_status status) boot))
  unfolding restore_opened map_status
  restore_opened-cases suppress defaults info status boot = ground arith

  restore_opened-failed :
      (suppress defaults : Bool) (info : PersistenceInfo) (status : StorageStatus)
      (old boot : Boot S)
      → (open_latest old.saving.storage).0 ≡ failed status
      → boot.result ≡ boot_empty
      → boot.autostart ≡ autostart_off
      → boot.saving.app ≡ old.saving.app
      → Restored g suppress defaults old
          (restore_opened g suppress defaults info (map_status status) boot)
  unfolding restore_opened map_status
  restore_opened-failed suppress defaults info status old boot e r a s =
      elim (restore_opened-cases suppress defaults info status boot) [
        | inl empty ↦
            rw empty (restore_empty-Restored suppress defaults old boot (e ∙ ap failed empty) r a s)
        | inr (filled, fails) ↦ rw fails (
            boot_fail-Restored suppress defaults (map_status status) old boot
              (unreadable status e filled refl))
      ]

  restore_loaded-cases :
      (suppress : Bool) (info : PersistenceInfo) (st : PersistenceStatus) (boot : Boot S)
      → (st ≡ persistence_ok)
        ⊎ ((st ≢ persistence_ok) × (restore_loaded g suppress info st boot ≡ boot_fail g st boot))
  unfolding restore_loaded
  restore_loaded-cases suppress info st boot = ground arith

  restore_opened-ok :
      (suppress defaults : Bool) (info : Info) (old boot : Boot S)
      → IsImage old.saving.storage.image
      → (open_latest old.saving.storage).0 ≡ ok info
      → boot.saving ≡ record old.saving { storage = (open_latest old.saving.storage).1 }
      → boot.autostart ≡ autostart_off
      → Restored g suppress defaults old (
          restore_opened g suppress defaults (info_from g (ok info) old.saving) persistence_ok boot)
  unfolding restore_opened info_from restore_loaded
  restore_opened-ok suppress defaults info old boot size e s a =
      let given = info_from g (ok info) old.saving in
      let load = persistence_load g boot.saving in
      let next : Boot S = record boot { saving = load.1 } in
      elim (Bool-cases (bitrate_supported info.bitrate_bps)) [
        | inr unsupported ↦
            rw (unsupported, restore_opened)
              (boot_fail-Restored suppress defaults _ old boot (
                wrong_rate info e (unsupported_rate info unsupported).0
                  (unsupported_rate info unsupported).1 refl))
        | inl supported ↦ elim (restore_loaded-cases suppress given load.0 next) [
          | inr (bad, fails) ↦
              rw (supported, fails, restore_opened)
                (boot_fail-Restored suppress defaults load.0 old next
                  (load_fails info e (ap (λ p. (persistence_load g p).0) s) bad))
          | inl loaded ↦
              let opened = open_latest-Opened old.saving.storage info size e in
              let again : (open_latest boot.saving.storage).0 ≡ ok info = rw s (
                open_latest-same old.saving.storage (open_latest old.saving.storage).1 info size
                  opened.holds.sized opened.same_flash e) in
              let (found, (k, checked)) = persistence_load-checked g boot.saving loaded in
              let same : found ≡ info = grind arith in
              rw (supported, loaded, restore_opened)
                (restored info e refl (supported_rate info supported) refl refl
                  (checked ∙ ap (λ (i : Info). i.config_crc) same) (rw a refl))
        ]
      ]

  restore_opened-flash :
      (suppress defaults : Bool) (info : PersistenceInfo) (st : PersistenceStatus) (boot : Boot S)
      → (restore_opened g suppress defaults info st boot).saving.storage.flash
        ≡ boot.saving.storage.flash
  unfolding restore_opened restore_empty restore_loaded boot_fail
  restore_opened-flash suppress defaults info st boot =
      ground (arith, persistence_load-flash g boot.saving)

  -- A restore ends in one of four ways: nothing is saved and the caller does not want the defaults;
  -- nothing is saved and they are taken, as the caller wants; what is saved is refused, because no
  -- slot loads, the bitrate is not supported or the load fails, the status says so, the generator is
  -- cleared and nothing is to be started; or the saved profile, of a supported bitrate, is loaded,
  -- the configuration CRC that the generator then computes is the saved one, and it is to be started
  -- exactly if its flag says so and the caller does not suppress it. It never changes the flash. The
  -- image buffer has its size before it.
  pub boot_restore-Restored :
      (suppress defaults : Bool) (boot : Boot S)
      → IsImage boot.saving.storage.image
      → let new = boot_restore g suppress defaults boot in
        (new.saving.storage.flash ≡ boot.saving.storage.flash)
        × Restored g suppress defaults boot new
  unfolding boot_restore persistence_get_info map_result
  boot_restore-Restored suppress defaults boot size = (
    restore_opened-flash suppress defaults _ _ _ ∙ open_latest-flash boot.saving.storage,
    elim (Result-cases (open_latest boot.saving.storage).0) [
      | inr (status, k) ↦
          rw (k, boot_restore, persistence_get_info)
            (restore_opened-failed suppress defaults _ status boot _ k refl refl refl)
      | inl (info, k) ↦
          rw (k, boot_restore, persistence_get_info)
            (restore_opened-ok suppress defaults info boot _ size k refl refl)
    ],
  )
