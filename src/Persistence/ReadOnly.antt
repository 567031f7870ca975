-- ===== src/Persistence/ReadOnly.antt =====
-- APP/app_persistence.c: a load leaves the flash as it is.
use teep_j1939_patent.Base.{◌≡◌, refl, ◌∙◌, inl, inr, arith, Bool, true, false, Bool-cases}
use teep_j1939_patent.Storage.Defs.{Info, Storage, Result, ok, failed}
use teep_j1939_patent.Storage.Parse.{Visitors}
use teep_j1939_patent.Storage.Ops.{open_latest, select_slot, load_slot}
use teep_j1939_patent.Storage.Save.{visit_latest}
use teep_j1939_patent.Storage.Walk.{Result-cases}
use teep_j1939_patent.Generator.{Generator}
use teep_j1939_patent.Persistence.{Saving, load_commit, load_visited, load_opened, load_visitors}
use teep_j1939_patent.Persistence.{persistence_load, can_mutate, is_config_ok}

pub open_latest-flash : (s : Storage) → (open_latest s).1.flash ≡ s.flash
unfolding open_latest
open_latest-flash s =
    elim (Result-cases
      (select_slot (load_slot 0 s).0 (load_slot 1 (record s { image = (load_slot 0 s).1 })).0)) [
        | inl (slot, k) ↦ rw (k, open_latest) refl
        | inr (status, k) ↦ rw (k, open_latest) refl
      ]

visit_latest-flash :
    {C : Type 0} (v : Visitors C) (s : Storage) (context : C)
    → (visit_latest v s context).1.flash ≡ s.flash
unfolding visit_latest
visit_latest-flash v s context = elim (Result-cases (open_latest s).0) [
  | inl (info, k) ↦ rw (k, visit_latest) (open_latest-flash s)
  | inr (status, k) ↦ rw (k, visit_latest) (open_latest-flash s)
]

module _ {S : Type 0} (g : Generator S) where
  load_commit-flash :
      (info : Info) (p : Saving S) → (load_commit g info p).1.storage.flash ≡ p.storage.flash
  unfolding load_commit
  load_commit-flash info p = ground arith

  load_visited-flash :
      (info : Info) (visited : Result Info) (going : Bool) (p : Saving S)
      → (load_visited g info visited going p).1.storage.flash ≡ p.storage.flash
  unfolding load_visited
  load_visited-flash info (failed status) going p = refl
  load_visited-flash info (ok visited) true p = load_commit-flash info p
  load_visited-flash info (ok visited) false p = refl

  load_opened-flash :
      (info : Info) (p : Saving S) → (load_opened g info p).1.storage.flash ≡ p.storage.flash
  unfolding load_opened
  load_opened-flash info p =
      let begun = g.begin_profile_config info.scalar_count info.blob_count info.profile_id p.app in
      let visited = visit_latest (load_visitors g) p.storage (true, begun.1) in
      let q : Saving S = record {
        last_status = p.last_status;
        storage = visited.1;
        app = visited.0.1.1;
      } in
      let kept = visit_latest-flash (load_visitors g) p.storage (true, begun.1) in
      elim (Bool-cases (is_config_ok begun.0)) [
        | inr refused ↦ rw (refused, load_opened) refl
        | inl going ↦
            rw (going, load_opened) (load_visited-flash info visited.0.0 visited.0.1.0 q ∙ kept)
      ]

  pub persistence_load-flash :
      (p : Saving S) → (persistence_load g p).1.storage.flash ≡ p.storage.flash
  unfolding persistence_load
  persistence_load-flash p = elim (Bool-cases (can_mutate g p.app)) [
    | inr refused ↦ rw (refused, persistence_load) refl
    | inl idle ↦ elim (Result-cases (open_latest p.storage).0) [
      | inr (status, k) ↦ rw (idle, k, persistence_load) (open_latest-flash p.storage)
      | inl (info, k) ↦
          rw (idle, k, persistence_load)
            (load_opened-flash info (record p { storage = (open_latest p.storage).1 })
              ∙ open_latest-flash p.storage)
    ]
  ]
