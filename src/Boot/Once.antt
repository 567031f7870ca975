-- ===== src/Boot/Once.antt =====
-- APP/app_boot.c: how often the autostart starts the generator.
use teep_j1939_patent.Base.{
  ℕ, ◌+◌, ◌-◌, ◌≤◌, ◌≡◌, ap, refl, arith, List, [], ◌∷◌, Bool, true, false,
}
use teep_j1939_patent.Base.{if◌then◌else◌}
use teep_j1939_patent.Scheduler.{SchedMode}
use teep_j1939_patent.Generator.{Generator}
use teep_j1939_patent.Boot.{Boot, is_pending, boot_try, boot_cancel, with_app, boot_restore}
use teep_j1939_patent.Storage.Load.{IsImage}
use teep_j1939_patent.Boot.Restored.{Restored, nothing_saved, defaults_taken, cleared, restored}
use teep_j1939_patent.Boot.Restored.{boot_restore-Restored}

-- What happens to the boot module after a restore: CAN is up, the operator starts or stops the
-- generator, or the rest of the program changes the generator's state.
pub data Event (S : Type 0) : Type 0 where
  event_try event_cancel : Event S
  event_change : (S → S) → Event S

-- How many tries answer that they started the generator
unfoldable pub answers : {S : Type 0} → Generator S → List (Event S) → Boot S → ℕ
answers g [] boot = 0
answers g (event_try ∷ events) boot =
    let tried = boot_try g boot in
    let rest = answers g events tried.1 in if tried.0 then rest + 1 else rest
answers g (event_cancel ∷ events) boot = answers g events (boot_cancel boot)
answers g (event_change f ∷ events) boot = answers g events (with_app (f boot.saving.app) boot)

-- How often the tries call `App_Gen_Start`, by a counter of its calls that is part of the generator's
-- state: what each try adds to it
unfoldable pub starts : {S : Type 0} → Generator S → (S → ℕ) → List (Event S) → Boot S → ℕ
starts g calls [] boot = 0
starts g calls (event_try ∷ events) boot =
    let after = (boot_try g boot).1 in
    (calls after.saving.app - calls boot.saving.app) + starts g calls events after
starts g calls (event_cancel ∷ events) boot = starts g calls events (boot_cancel boot)
starts g calls (event_change f ∷ events) boot =
    starts g calls events (with_app (f boot.saving.app) boot)

module _ {S : Type 0} (g : Generator S) where
  boot_try-idle :
      (boot : Boot S) → is_pending boot.autostart ≡ false → boot_try g boot ≡ (false, boot)
  unfolding boot_try
  boot_try-idle boot e = rw (e, boot_try) refl

  -- A try leaves nothing pending.
  boot_try-settles : (boot : Boot S) → is_pending (boot_try g boot).1.autostart ≡ false
  unfolding boot_try
  boot_try-settles boot = ground arith

  boot_cancel-settles : (boot : Boot S) → is_pending (boot_cancel boot).autostart ≡ false
  unfolding boot_cancel
  boot_cancel-settles boot = ground arith

  -- After a restore that suppresses the autostart, nothing is pending.
  suppressed-idle :
      (defaults : Bool) (old new : Boot S)
      → Restored g true defaults old new
      → is_pending new.autostart ≡ false
  suppressed-idle defaults old new (nothing_saved d e r a s) = ap is_pending a
  suppressed-idle defaults old new (defaults_taken d e r a s) = ap is_pending a
  suppressed-idle defaults old new (cleared st s w r l a c k) = ap is_pending a
  suppressed-idle defaults old new (restored info e r b k c m a) = ground (arith, a)

module _ {S : Type 0} (g : Generator S) (calls : S → ℕ)
    (counts : (mode : SchedMode) (s : S) → calls (g.start mode s) ≡ calls s + 1) where
  -- A try calls `App_Gen_Start` once where it answers that it did, and not at all otherwise.
  boot_try-calls :
      (boot : Boot S)
      → calls (boot_try g boot).1.saving.app
        ≡ calls boot.saving.app + (if (boot_try g boot).0 then 1 else 0)
  unfolding boot_try
  boot_try-calls boot = ground (arith, counts boot.autostart_mode boot.saving.app)

  starts-idle :
      (events : List (Event S)) (boot : Boot S)
      → is_pending boot.autostart ≡ false
      → starts g calls events boot ≡ 0
  unfolding starts
  starts-idle [] boot e = refl
  starts-idle (event_try ∷ events) boot e =
      rw (starts, boot_try-idle g boot e) (omega (arith, starts-idle events boot e))
  starts-idle (event_cancel ∷ events) boot e =
      starts-idle events (boot_cancel boot) (boot_cancel-settles g boot)
  starts-idle (event_change f ∷ events) boot e =
      starts-idle events (with_app (f boot.saving.app) boot) e

  starts-le : (events : List (Event S)) (boot : Boot S) → starts g calls events boot ≤ 1
  unfolding starts
  starts-le [] boot = omega arith
  starts-le (event_try ∷ events) boot =
      let none_left = starts-idle events (boot_try g boot).1 (boot_try-settles g boot) in
      ground (arith, none_left, boot_try-calls boot)
  starts-le (event_cancel ∷ events) boot = starts-le events (boot_cancel boot)
  starts-le (event_change f ∷ events) boot = starts-le events (with_app (f boot.saving.app) boot)

  starts-answers :
      (events : List (Event S)) (boot : Boot S) → starts g calls events boot ≡ answers g events boot
  unfolding starts answers
  starts-answers [] boot = refl
  starts-answers (event_try ∷ events) boot =
      ground (arith, starts-answers events (boot_try g boot).1, boot_try-calls boot)
  starts-answers (event_cancel ∷ events) boot = starts-answers events (boot_cancel boot)
  starts-answers (event_change f ∷ events) boot =
      starts-answers events (with_app (f boot.saving.app) boot)

  -- The autostart calls `App_Gen_Start` at most once, whatever tries, cancels and changes of the
  -- generator by the rest of the program follow each other, in whatever order: a counter that
  -- `App_Gen_Start` raises by one is raised at most once by all the tries together, and as often as a
  -- try answers that it started the generator. After a cancel no try calls it, nor after a restore
  -- that suppresses the autostart; for the latter the image buffer has its size before the restore.
  pub boot_starts_once :
      (events : List (Event S)) (defaults : Bool) (boot : Boot S)
      → IsImage boot.saving.storage.image
      → (starts g calls events boot ≤ 1)
        × (starts g calls events boot ≡ answers g events boot)
        × (starts g calls (event_cancel ∷ events) boot ≡ 0)
        × (starts g calls events (boot_restore g true defaults boot) ≡ 0)
  unfolding starts
  boot_starts_once events defaults boot size = (
    starts-le events boot,
    starts-answers events boot,
    starts-idle events (boot_cancel boot) (boot_cancel-settles g boot),
    starts-idle events (boot_restore g true defaults boot) (
        suppressed-idle g defaults boot (boot_restore g true defaults boot)
          (boot_restore-Restored g true defaults boot size).1),
  )
