-- ===== src/Persistence.antt =====
-- APP/app_persistence.c: the saved profile between the generator and the profile storage.
pub mod Loaded
pub mod ReadOnly
use teep_j1939_patent.Base.{
  ℕ, zero, suc, ◌+◌, ◌-◌, ◌*◌, ◌%◌, List, [], ◌∷◌, ◌++◌, take, drop, length, replicate,
}
use teep_j1939_patent.Base.{Option, some, none}
use teep_j1939_patent.Base.{
  Bool, true, false, not, ◌&&◌, ◌||◌, ltb, ◌==◌, ◌!=◌, if◌then◌else◌, u8, u32, bit_and,
}
use teep_j1939_patent.ValueStore.{get_active_count}
use teep_j1939_patent.Storage.Defs.{
  StorageStatus, Result, ok, failed, Info, Storage, flag_autostart,
}
use teep_j1939_patent.Storage.Defs.{storage_empty, storage_busy, invalid_image, catalog_mismatch}
use teep_j1939_patent.Storage.Defs.{flash_error, verify_error, unsupported_config, visitor_rejected}
use teep_j1939_patent.Storage.Parse.{Visitors}
use teep_j1939_patent.Storage.Ops.{storage_init, open_latest}
use teep_j1939_patent.Storage.Save.{save, set_autostart, erase, visit_latest}
use teep_j1939_patent.Control.Backend.{
  ConfigTxnStatus, config_ok, PersistenceStatus, PersistenceInfo,
}
use teep_j1939_patent.Control.Backend.{persistence_ok, persistence_empty, persistence_invalid_state}
use teep_j1939_patent.Control.Backend.{persistence_unsupported_config, persistence_catalog_mismatch}
use teep_j1939_patent.Control.Backend.{persistence_invalid_image, persistence_flash_error}
use teep_j1939_patent.Control.Backend.{persistence_verify_error, persistence_apply_error}
use teep_j1939_patent.Generator.{Generator}

-- `s_last_status`, the storage, and the generator's state
pub record Saving (S : Type 0) : Type 0 where
  pub last_status : PersistenceStatus
  pub storage : Storage
  pub app : S

-- `APP_BLOB_CHUNK_BYTES`
abbrev pub blob_chunk_bytes : ℕ
blob_chunk_bytes = 3

-- `prv_map` of a status that is not `PROFILE_STORAGE_OK`
unfoldable pub map_status : StorageStatus → PersistenceStatus
map_status storage_empty = persistence_empty
map_status catalog_mismatch = persistence_catalog_mismatch
map_status invalid_image = persistence_invalid_image
map_status verify_error = persistence_verify_error
map_status unsupported_config = persistence_unsupported_config
map_status visitor_rejected = persistence_apply_error
map_status storage_busy = persistence_invalid_state
map_status flash_error = persistence_flash_error

-- `prv_map`
unfoldable pub map_result {ℓ} : {A : Type ℓ} → Result A → PersistenceStatus
map_result (ok a) = persistence_ok
map_result (failed status) = map_status status

-- `App_Persistence_Init`
unfoldable pub persistence_init : {S : Type 0} → Saving S → Saving S
persistence_init p = record p {
  last_status = persistence_empty;
  storage = storage_init p.storage.flash;
}

abbrev pub is_config_ok : ConfigTxnStatus → Bool
is_config_ok config_ok = true
is_config_ok _ = false

abbrev pub has_autostart : Info → Bool
has_autostart info = bit_and info.flags flag_autostart != 0

-- `memset(out, 0, sizeof(*out))`
abbrev pub zero_info : Info
zero_info = record {
  sequence = 0;
  config_crc = 0;
  bitrate_bps = 0;
  signal_count = 0;
  scalar_count = 0;
  flags = 0;
  profile_id = 0;
  blob_count = 0;
  slot = 0;
}

-- What a result writes to an out parameter
abbrev pub written : Result Info → Option Info
written (ok info) = some info
written (failed status) = none

abbrev pub autostart_of : Result Info → Bool
autostart_of (ok previous) = has_autostart previous
autostart_of (failed status) = false

module _ {S : Type 0} (g : Generator S) where
  -- `prv_can_mutate`
  unfoldable pub can_mutate : S → Bool
  can_mutate s = not (g.is_running s) && not (g.config_transaction_open s)

  -- `prv_load_scalar`; the context is `load->ok` and the generator.
  unfoldable pub load_scalar : ℕ → ℕ → Bool × S → Bool × (Bool × S)
  load_scalar key raw (going, s) =
      let staged = g.stage_constant_raw key raw s in
      let after = if is_config_ok staged.0 then going else false in (after, (after, staged.1))

  -- The loop of `prv_load_blob`: `fuel` rounds of three bytes, or fewer, of the bytes that are left
  unfoldable pub load_blob_loop : ℕ → ℕ → ℕ → List ℕ → ℕ → Bool × S → Bool × S
  load_blob_loop zero key len bytes offset (going, s) = (going, s)
  load_blob_loop (suc fuel) key len bytes offset (going, s) =
      let data_ = take blob_chunk_bytes (drop offset bytes) in
      let chunk = data_ ++ replicate (blob_chunk_bytes - length data_) 0 in
      let staged = g.stage_blob_chunk key (u8 len) (u8 offset) chunk s in
      let after = if is_config_ok staged.0 then going else false in
      let rest = load_blob_loop fuel key len bytes (offset + blob_chunk_bytes) (after, staged.1) in
      if ltb offset len && going then rest else (going, s)

  -- `prv_load_blob`; there are no more chunks than bytes.
  unfoldable pub load_blob : ℕ → List ℕ → Bool × S → Bool × (Bool × S)
  load_blob key bytes context =
      let after = load_blob_loop (length bytes) key (length bytes) bytes 0 context in
      (after.0, after)

  abbrev pub load_visitors : Visitors (Bool × S)
  load_visitors = record { scalar_visitor = load_scalar; blob_visitor = load_blob }

  -- `s_last_status = status; return s_last_status;`
  abbrev pub finish : PersistenceStatus → Saving S → PersistenceStatus × Saving S
  finish status p = (status, record p { last_status = status })

  -- `App_Persistence_Save`: the status, with what the storage writes to `out`
  unfoldable pub persistence_save : Saving S → (PersistenceStatus × Option Info) × Saving S
  persistence_save p =
      let previous = open_latest p.storage in
      let saved =
        save (g.values p.app) (g.get_active_profile_id p.app) (u32 (g.get_baud p.app * 1000))
          (autostart_of previous.0) previous.1 in
      let refused = finish persistence_invalid_state p in
      let unsupported = finish persistence_unsupported_config p in
      let done = finish (map_result saved.0) (record p { storage = saved.1 }) in
      if not (can_mutate p.app) || not (g.has_configured_signals p.app)
      then ((refused.0, none), refused.1)
      else if g.get_active_signal_count p.app != get_active_count (g.values p.app)
      then ((unsupported.0, none), unsupported.1)
      else ((done.0, written saved.0), done.1)

  -- `App_Persistence_Load` (with no out parameters) after the visit of a profile with this info
  unfoldable pub load_commit : Info → Saving S → PersistenceStatus × Saving S
  load_commit info p =
      let ((committed, generation, signals, pgns), s) = g.commit_config p.app in
      let q = record p { app = s } in
      if not (is_config_ok committed)
      then finish persistence_apply_error q
      else if g.get_config_crc s != info.config_crc
      then finish persistence_verify_error q
      else finish persistence_ok q

  -- The outcome of the visit
  unfoldable pub load_visited : Info → Result Info → Bool → Saving S → PersistenceStatus × Saving S
  load_visited info (failed status) going p =
      finish (map_status status) (record p { app = g.abort_config p.app })
  load_visited info (ok visited) going p =
      if not going
      then finish persistence_apply_error (record p { app = g.abort_config p.app })
      else load_commit info p

  -- `App_Persistence_Load` of a profile with this info
  unfoldable pub load_opened : Info → Saving S → PersistenceStatus × Saving S
  load_opened info p =
      let begun = g.begin_profile_config info.scalar_count info.blob_count info.profile_id p.app in
      let visited = visit_latest load_visitors p.storage (true, begun.1) in
      if not (is_config_ok begun.0)
      then finish persistence_apply_error (record p { app = begun.1 })
      else load_visited info visited.0.0 visited.0.1.0
          record { last_status = p.last_status; storage = visited.1; app = visited.0.1.1 }

  -- `App_Persistence_Load`
  unfoldable pub persistence_load : Saving S → PersistenceStatus × Saving S
  persistence_load p =
      let opened = open_latest p.storage in
      let q = record p { storage = opened.1 } in
      if not (can_mutate p.app) then finish persistence_invalid_state p else elim opened.0 [
        | failed status ↦ finish (map_status status) q
        | ok info ↦ load_opened info q
      ]

  -- `App_Persistence_Erase`
  unfoldable pub persistence_erase : Saving S → PersistenceStatus × Saving S
  persistence_erase p =
      let erased = erase p.storage in
      if not (can_mutate p.app)
      then finish persistence_invalid_state p
      else finish (map_result erased.0) (record p { storage = erased.1 })

  -- `App_Persistence_Set_Autostart`
  unfoldable pub persistence_set_autostart :
      Bool → Saving S → (PersistenceStatus × Option Info) × Saving S
  persistence_set_autostart enabled p =
      let changed = set_autostart enabled p.storage in
      let refused = finish persistence_invalid_state p in
      let done = finish (map_result changed.0) (record p { storage = changed.1 }) in
      if not (can_mutate p.app)
      then ((refused.0, none), refused.1)
      else ((done.0, written changed.0), done.1)

  -- `App_Persistence_Get_Info` of a result; where nothing loads, `stored` stays zero.
  unfoldable pub info_from : Result Info → Saving S → PersistenceInfo
  info_from (failed status) p = record {
    valid = false;
    autostart = false;
    dirty = false;
    stored = zero_info;
    last_status = p.last_status;
  }
  info_from (ok info) p = record {
    valid = true;
    autostart = has_autostart info;
    dirty = info.config_crc != g.get_config_crc p.app;
    stored = info;
    last_status = p.last_status;
  }

  -- `App_Persistence_Get_Info`
  unfoldable pub persistence_get_info : Saving S → (PersistenceStatus × PersistenceInfo) × Saving S
  persistence_get_info p =
      let opened = open_latest p.storage in
      ((map_result opened.0, info_from opened.0 p), record p { storage = opened.1 })
