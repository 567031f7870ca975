-- ===== src/Examples/Saved.antt =====
-- MID/j1939_profile_storage.c on a saved profile of one record, key 1 set to 7.
use teep_j1939_patent.Base.{
  ℕ, ◌-◌, ◌≡◌, refl, true, false, List, [], ◌∷◌, get_or, map, replicate, ◌++◌,
}
use teep_j1939_patent.Base.{length-replicate, bit_test, bit_assign, arith}
use teep_j1939_patent.Crc.{crc_round, crc_rounds, crc_update_u8, crc_update, crc_update_u16_le}
use teep_j1939_patent.Crc.{crc_update_u32_le, crc_final}
use teep_j1939_patent.Catalog.{signal_at, catalog_signals, index_from_key, catalog_key_to_index}
use teep_j1939_patent.HalFlash.{
  Answer, flash_read, operate, erase_page, program_halfword, is_erased,
}
use teep_j1939_patent.Storage.Defs.{Info, Storage, ok, image_crc}
use teep_j1939_patent.Storage.Defs.{config_crc_start}
use teep_j1939_patent.Storage.Parse.{
  image_length, parse_key, parse_scalar, parse_record, parse_records,
}
use teep_j1939_patent.Storage.Parse.{
  profile_accepted, counts_rejected, parse_end, finish_walk, parse,
}
use teep_j1939_patent.Storage.Ops.{
  header_rejected, load_image, load_whole, load_checked, load_header,
}
use teep_j1939_patent.Storage.Ops.{load_slot, select_slot, open_latest}
use teep_j1939_patent.Storage.Write.{erase_pages, program_image, verify_image, program_marker}
use teep_j1939_patent.Storage.Write.{confirm_slot, write_slot}
use teep_j1939_patent.Storage.Save.{autostart_image, set_autostart}
use teep_j1939_patent.Storage.Update.{op_set_autostart, apply}
use teep_j1939_patent.Storage.Flag.{SameRecords, with_flag, set_autostart-with_flag}
use teep_j1939_patent.Storage.PowerFail.{Step, apply-Step, run, run-opens}

-- Slot A
abbrev stored : List ℕ
stored =
    74 ∷ 57 ∷ 80 ∷ 54 ∷ 1 ∷ 0 ∷ 44 ∷ 0 ∷ 240 ∷ 187 ∷ 85 ∷ 241 ∷ 1 ∷ 0 ∷ 0 ∷ 0 ∷ 20 ∷ 55 ∷ 45 ∷ 246
    ∷ 37 ∷ 226 ∷ 136 ∷ 222 ∷ 144 ∷ 208 ∷ 3 ∷ 0 ∷ 6 ∷ 0 ∷ 1 ∷ 0 ∷ 1 ∷ 0 ∷ 255 ∷ 0 ∷ 0 ∷ 0 ∷ 0 ∷ 0
    ∷ 90 ∷ 165 ∷ 90 ∷ 165 ∷ 1 ∷ 0 ∷ 7 ∷ 0 ∷ 0 ∷ 0 ∷ []

abbrev good : List ℕ → Answer
good cells = record {
  ready = true;
  unlocked = true;
  finished = true;
  write_protect_error = false;
  program_error = false;
  cells = cells;
}

-- Four pages are erased, then the halfwords are programmed.
abbrev answers : List Answer
answers =
    map good ([] ∷ [] ∷ [] ∷ [] ∷ [])
    ++ map good (
        (74 ∷ 57 ∷ [])
        ∷ (80 ∷ 54 ∷ [])
        ∷ (1 ∷ 0 ∷ [])
        ∷ (44 ∷ 0 ∷ [])
        ∷ (240 ∷ 187 ∷ [])
        ∷ (85 ∷ 241 ∷ [])
        ∷ (2 ∷ 0 ∷ [])
        ∷ (0 ∷ 0 ∷ [])
        ∷ (20 ∷ 55 ∷ [])
        ∷ (45 ∷ 246 ∷ [])
        ∷ (52 ∷ 3 ∷ [])
        ∷ (111 ∷ 14 ∷ [])
        ∷ (144 ∷ 208 ∷ [])
        ∷ (3 ∷ 0 ∷ [])
        ∷ (6 ∷ 0 ∷ [])
        ∷ (1 ∷ 0 ∷ [])
        ∷ (1 ∷ 0 ∷ [])
        ∷ (255 ∷ 0 ∷ [])
        ∷ (1 ∷ 0 ∷ [])
        ∷ (0 ∷ 0 ∷ [])
        ∷ (1 ∷ 0 ∷ [])
        ∷ (7 ∷ 0 ∷ [])
        ∷ (0 ∷ 0 ∷ [])
        ∷ (90 ∷ 165 ∷ [])
        ∷ (90 ∷ 165 ∷ [])
        ∷ [])

abbrev pub saved : List Answer → Storage
saved script = record {
  image = replicate 1536 0;
  flash = record { memory = λ a. get_or stored (a - 0x0800_e000) 0xff; answers = script };
}

abbrev saved_info : Info
saved_info = record {
  sequence = 1;
  config_crc = 4130158356;
  bitrate_bps = 250000;
  signal_count = 1;
  scalar_count = 1;
  flags = 0;
  profile_id = 255;
  blob_count = 0;
  slot = 0;
}

opens : (script : List Answer) → (open_latest (saved script)).0 ≡ ok saved_info
unfolding flash_read header_rejected load_image load_whole load_checked load_header load_slot
    select_slot open_latest parse_key parse_scalar parse_record parse_records profile_accepted
    counts_rejected parse_end finish_walk parse image_crc config_crc_start crc_round crc_rounds
    crc_update_u8 crc_update crc_update_u16_le crc_update_u32_le crc_final signal_at catalog_signals
    index_from_key catalog_key_to_index bit_test bit_assign
opens script = refl

restarts :
    (set_autostart true (saved answers)).0
    ≡ ok (record saved_info { sequence = 2; flags = 1; slot = 1 })
unfolding flash_read header_rejected load_image load_whole load_checked load_header load_slot
    select_slot open_latest parse_key parse_scalar parse_record parse_records profile_accepted
    counts_rejected parse_end finish_walk parse image_crc config_crc_start crc_round crc_rounds
    crc_update_u8 crc_update crc_update_u16_le crc_update_u32_le crc_final signal_at catalog_signals
    index_from_key catalog_key_to_index bit_test bit_assign erase_pages program_image verify_image
    program_marker confirm_slot write_slot autostart_image set_autostart operate erase_page
    program_halfword is_erased
restarts = refl

set_autostart-with_flag_example :
    (old : Info) × (((open_latest (saved answers)).0 ≡ ok old)
      × (record saved_info { sequence = 2; flags = 1; slot = 1 } ≡ with_flag old true)
      × SameRecords
          (image_length (open_latest (saved answers)).1.image)
          (set_autostart true (saved answers)).1.flash.memory
          1
          old.slot
          (saved answers).flash.memory)
set_autostart-with_flag_example =
    set_autostart-with_flag true (saved answers)
      (record saved_info { sequence = 2; flags = 1; slot = 1 }) (length-replicate {A = ℕ} 1536 0)
      restarts

-- The power goes after six of the operations.
abbrev cut_short : List Answer
cut_short = map good ([] ∷ [] ∷ [] ∷ [] ∷ (74 ∷ 57 ∷ []) ∷ (80 ∷ 54 ∷ []) ∷ [])

apply-Step_example :
    (latest : Info) × (((open_latest (apply (op_set_autostart true) (saved cut_short)).1).0
        ≡ ok latest)
      × Step saved_info (apply (op_set_autostart true) (saved cut_short)).0 latest)
apply-Step_example =
    apply-Step (op_set_autostart true) (saved cut_short) saved_info
      (length-replicate {A = ℕ} 1536 0) (omega arith) (opens cut_short)

run-opens_example :
    (latest : Info) × ((open_latest
        (run (op_set_autostart true ∷ op_set_autostart false ∷ []) (saved answers))).0
      ≡ ok latest)
run-opens_example =
    run-opens (op_set_autostart true ∷ op_set_autostart false ∷ []) (saved answers) saved_info
      (length-replicate {A = ℕ} 1536 0) (opens answers)
