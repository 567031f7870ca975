-- ===== src/Persistence/Loaded.antt =====
-- APP/app_persistence.c: what a load that succeeds has checked.
use teep_j1939_patent.Base.{◌≡◌, ◌≢◌, refl, ap, sym, ◌∙◌, inl, inr, arith, Bool, true, false}
use teep_j1939_patent.Base.{Bool-cases, ◌!=◌}
use teep_j1939_patent.Storage.Defs.{Info, StorageStatus, Result, ok, failed}
use teep_j1939_patent.Storage.Ops.{open_latest}
use teep_j1939_patent.Storage.Save.{visit_latest}
use teep_j1939_patent.Storage.Walk.{Result-cases}
use teep_j1939_patent.Control.Backend.{PersistenceStatus, persistence_ok}
use teep_j1939_patent.Generator.{Generator}
use teep_j1939_patent.Persistence.{Saving, map_status, load_commit, load_visited, load_opened}
use teep_j1939_patent.Persistence.{persistence_load, can_mutate, is_config_ok, load_visitors}

map_status-not_ok : (status : StorageStatus) → map_status status ≢ persistence_ok
unfolding map_status
map_status-not_ok status e = ground arith

module _ {S : Type 0} (g : Generator S) where
  load_commit-checked :
      (info : Info) (p : Saving S)
      → (load_commit g info p).0 ≡ persistence_ok
      → g.get_config_crc (load_commit g info p).1.app ≡ info.config_crc
  unfolding load_commit
  load_commit-checked info p e = elim (Bool-cases (is_config_ok (g.commit_config p.app).0.0)) [
    | inr refused ↦ absurd (grind arith)
    | inl committed ↦
        elim (Bool-cases (g.get_config_crc (g.commit_config p.app).1 != info.config_crc)) [
          | inl differs ↦ absurd (grind arith)
          | inr same ↦ rw (committed, same, load_commit) (ground (arith, same))
        ]
  ]

  load_visited-checked :
      (info : Info) (visited : Result Info) (going : Bool) (p : Saving S)
      → (load_visited g info visited going p).0 ≡ persistence_ok
      → g.get_config_crc (load_visited g info visited going p).1.app ≡ info.config_crc
  unfolding load_visited
  load_visited-checked info (failed status) going p e = absurd (map_status-not_ok status e)
  load_visited-checked info (ok visited) true p e = load_commit-checked info p e
  load_visited-checked info (ok visited) false p e = ground (arith, e)

  load_opened-checked :
      (info : Info) (p : Saving S)
      → (load_opened g info p).0 ≡ persistence_ok
      → g.get_config_crc (load_opened g info p).1.app ≡ info.config_crc
  unfolding load_opened
  load_opened-checked info p e =
      let begun = g.begin_profile_config info.scalar_count info.blob_count info.profile_id p.app in
      elim (Bool-cases (is_config_ok begun.0)) [
        | inr refused ↦ absurd (grind arith)
        | inl going ↦
            let visited = visit_latest (load_visitors g) p.storage (true, begun.1) in
            let q : Saving S = record {
              last_status = p.last_status;
              storage = visited.1;
              app = visited.0.1.1;
            } in
            let k : load_opened g info p ≡ load_visited g info visited.0.0 visited.0.1.0 q =
              rw (going, load_opened) refl in
            rw k (
              load_visited-checked info visited.0.0 visited.0.1.0 q
                (ap (λ (r : PersistenceStatus × Saving S). r.0) (sym k) ∙ e))
      ]

  -- A load that succeeds has opened a profile, and the generator's configuration CRC after it is the
  -- profile's.
  pub persistence_load-checked :
      (p : Saving S)
      → (persistence_load g p).0 ≡ persistence_ok
      → (info : Info) × (((open_latest p.storage).0 ≡ ok info)
          × (g.get_config_crc (persistence_load g p).1.app ≡ info.config_crc))
  unfolding persistence_load
  persistence_load-checked p e = elim (Bool-cases (can_mutate g p.app)) [
    | inr refused ↦ absurd (grind arith)
    | inl idle ↦ elim (Result-cases (open_latest p.storage).0) [
      | inr (status, k) ↦
          let told : (persistence_load g p).0 ≡ map_status status =
            rw (idle, k, persistence_load) refl in
          absurd (map_status-not_ok status (sym told ∙ e))
      | inl (info, k) ↦
          let q = record p { storage = (open_latest p.storage).1 } in
          let told : persistence_load g p ≡ load_opened g info q =
            rw (idle, k, persistence_load) refl in
          (
            info,
            (
              k,
              rw told (
                  load_opened-checked info q
                    (ap (λ (r : PersistenceStatus × Saving S). r.0) (sym told) ∙ e)),
            ),
          )
    ]
  ]
