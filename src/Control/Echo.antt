-- ===== src/Control/Echo.antt =====
-- APP/app_control_can.c: every request that is executed gets a response that names it.
use teep_j1939_patent.Base.{ℕ, ◌≤◌, ◌≡◌, refl, arith, List, get_or, length}
use teep_j1939_patent.Base.{not, ◌||◌, ltb, u8, bit_or}
use teep_j1939_patent.Base.{Bool-cases, inl, inr}
use teep_j1939_patent.Control.Defs.{
  status_code-small, ControlStatus, unsupported_opcode, build_response,
}
use teep_j1939_patent.Control.Defs.{
  response_mask, frame_length, reserved_bytes_are_zero, bytes_are_zero_from,
}
use teep_j1939_patent.Control.Backend.{Backend}
use teep_j1939_patent.Control.Commands.{
  opcode_tc1001, opcode_stop, opcode_clear_config, opcode_set_const, opcode_begin_config,
  opcode_set_signal_raw, opcode_commit_config, opcode_abort_config, opcode_write_blob,
  opcode_set_string, opcode_set_global_percent, opcode_save_config, opcode_load_saved_config,
  opcode_erase_saved_config, opcode_set_autostart, opcode_start, opcode_get_status, handle_stop,
  handle_clear_config, handle_set_const, handle_begin_config, handle_set_signal_raw,
  handle_commit_config, handle_abort_config, handle_write_blob, handle_set_string,
  handle_set_global_percent, handle_save_config, handle_load_saved, handle_erase_saved,
  handle_set_autostart, handle_start,
}
use teep_j1939_patent.Control.Status.{handle_get_status}
use teep_j1939_patent.Control.Frames.{handle_tc1001, execute}

-- A response is a whole frame with the opcode marked, the sequence, and one of the protocol's codes.
pub record IsReply (opcode sequence : ℕ) (response : List ℕ) : Type 0 where
  pub whole : length response ≡ frame_length
  pub marked : get_or response 0 0 ≡ u8 (bit_or opcode response_mask)
  pub numbered : get_or response 1 0 ≡ sequence
  pub known : get_or response 2 0 ≤ 22

build_response-IsReply :
    (opcode sequence : ℕ) (st : ControlStatus) (detail value : ℕ)
    → IsReply opcode sequence (build_response opcode sequence st detail value)
unfolding build_response
build_response-IsReply opcode sequence st detail value = record {
  whole = refl;
  marked = refl;
  numbered = refl;
  known = status_code-small st;
}

module _ {S : Type 0} (b : Backend S) (sequence : ℕ) (request : List ℕ) (s : S) where
  handle_tc1001-IsReply : IsReply opcode_tc1001 sequence (handle_tc1001 b sequence request s).0
  unfolding handle_tc1001
  handle_tc1001-IsReply = elim (Bool-cases (reserved_bytes_are_zero request)) [
    | inl t ↦ rw (t, handle_tc1001) (build_response-IsReply opcode_tc1001 sequence _ _ _)
    | inr f ↦ rw (f, handle_tc1001) (build_response-IsReply opcode_tc1001 sequence _ _ _)
  ]

  handle_stop-IsReply : IsReply opcode_stop sequence (handle_stop b sequence request s).0
  unfolding handle_stop
  handle_stop-IsReply = elim (Bool-cases (reserved_bytes_are_zero request)) [
    | inl t ↦ rw (t, handle_stop) (build_response-IsReply opcode_stop sequence _ _ _)
    | inr f ↦ rw (f, handle_stop) (build_response-IsReply opcode_stop sequence _ _ _)
  ]

  handle_clear_config-IsReply :
      IsReply opcode_clear_config sequence (handle_clear_config b sequence request s).0
  unfolding handle_clear_config
  handle_clear_config-IsReply = elim (Bool-cases (reserved_bytes_are_zero request)) [
    | inr f ↦
        rw (f, handle_clear_config) (build_response-IsReply opcode_clear_config sequence _ _ _)
    | inl t ↦ elim (Bool-cases (b.is_running s || b.config_transaction_open s)) [
      | inl u ↦
          rw (t, u, handle_clear_config) (build_response-IsReply opcode_clear_config sequence _ _ _)
      | inr v ↦
          rw (t, v, handle_clear_config) (build_response-IsReply opcode_clear_config sequence _ _ _)
    ]
  ]

  handle_set_const-IsReply :
      IsReply opcode_set_const sequence (handle_set_const b sequence request s).0
  unfolding handle_set_const
  handle_set_const-IsReply = grind (arith, build_response-IsReply)

  handle_begin_config-IsReply :
      IsReply opcode_begin_config sequence (handle_begin_config b sequence request s).0
  unfolding handle_begin_config
  handle_begin_config-IsReply = grind (arith, build_response-IsReply)

  handle_set_signal_raw-IsReply :
      IsReply opcode_set_signal_raw sequence (handle_set_signal_raw b sequence request s).0
  unfolding handle_set_signal_raw
  handle_set_signal_raw-IsReply = grind (arith, build_response-IsReply)

  handle_commit_config-IsReply :
      IsReply opcode_commit_config sequence (handle_commit_config b sequence request s).0
  unfolding handle_commit_config
  handle_commit_config-IsReply = elim (Bool-cases (reserved_bytes_are_zero request)) [
    | inl t ↦
        rw (t, handle_commit_config) (build_response-IsReply opcode_commit_config sequence _ _ _)
    | inr f ↦
        rw (f, handle_commit_config) (build_response-IsReply opcode_commit_config sequence _ _ _)
  ]

  handle_abort_config-IsReply :
      IsReply opcode_abort_config sequence (handle_abort_config b sequence request s).0
  unfolding handle_abort_config
  handle_abort_config-IsReply = elim (Bool-cases (reserved_bytes_are_zero request)) [
    | inl t ↦
        rw (t, handle_abort_config) (build_response-IsReply opcode_abort_config sequence _ _ _)
    | inr f ↦
        rw (f, handle_abort_config) (build_response-IsReply opcode_abort_config sequence _ _ _)
  ]

  handle_write_blob-IsReply :
      IsReply opcode_write_blob sequence (handle_write_blob b sequence request s).0
  unfolding handle_write_blob
  handle_write_blob-IsReply = grind (arith, build_response-IsReply)

  handle_set_string-IsReply :
      IsReply opcode_set_string sequence (handle_set_string b sequence request s).0
  unfolding handle_set_string
  handle_set_string-IsReply = grind (arith, build_response-IsReply)

  handle_set_global_percent-IsReply :
      IsReply opcode_set_global_percent sequence (handle_set_global_percent b sequence request s).0
  unfolding handle_set_global_percent
  handle_set_global_percent-IsReply = elim (Bool-cases (bytes_are_zero_from request 4)) [
    | inl t ↦
        rw (t, handle_set_global_percent)
          (build_response-IsReply opcode_set_global_percent sequence _ _ _)
    | inr f ↦
        rw (f, handle_set_global_percent)
          (build_response-IsReply opcode_set_global_percent sequence _ _ _)
  ]

  handle_save_config-IsReply :
      IsReply opcode_save_config sequence (handle_save_config b sequence request s).0
  unfolding handle_save_config
  handle_save_config-IsReply = elim (Bool-cases (reserved_bytes_are_zero request)) [
    | inl t ↦ rw (t, handle_save_config) (build_response-IsReply opcode_save_config sequence _ _ _)
    | inr f ↦ rw (f, handle_save_config) (build_response-IsReply opcode_save_config sequence _ _ _)
  ]

  handle_load_saved-IsReply :
      IsReply opcode_load_saved_config sequence (handle_load_saved b sequence request s).0
  unfolding handle_load_saved
  handle_load_saved-IsReply = elim (Bool-cases (reserved_bytes_are_zero request)) [
    | inl t ↦
        rw (t, handle_load_saved) (build_response-IsReply opcode_load_saved_config sequence _ _ _)
    | inr f ↦
        rw (f, handle_load_saved) (build_response-IsReply opcode_load_saved_config sequence _ _ _)
  ]

  handle_erase_saved-IsReply :
      IsReply opcode_erase_saved_config sequence (handle_erase_saved b sequence request s).0
  unfolding handle_erase_saved
  handle_erase_saved-IsReply = elim (Bool-cases (reserved_bytes_are_zero request)) [
    | inl t ↦
        rw (t, handle_erase_saved) (build_response-IsReply opcode_erase_saved_config sequence _ _ _)
    | inr f ↦
        rw (f, handle_erase_saved) (build_response-IsReply opcode_erase_saved_config sequence _ _ _)
  ]

  handle_set_autostart-IsReply :
      IsReply opcode_set_autostart sequence (handle_set_autostart b sequence request s).0
  unfolding handle_set_autostart
  handle_set_autostart-IsReply =
      elim (Bool-cases (ltb 1 (get_or request 2 0) || not (bytes_are_zero_from request 3))) [
        | inl t ↦
            rw (t, handle_set_autostart)
              (build_response-IsReply opcode_set_autostart sequence _ _ _)
        | inr f ↦
            rw (f, handle_set_autostart)
              (build_response-IsReply opcode_set_autostart sequence _ _ _)
      ]

  handle_start-IsReply : IsReply opcode_start sequence (handle_start b sequence request s).0
  unfolding handle_start
  handle_start-IsReply = elim (Bool-cases (reserved_bytes_are_zero request)) [
    | inr f ↦ rw (f, handle_start) (build_response-IsReply opcode_start sequence _ _ _)
    | inl t ↦ elim (Bool-cases (b.active_profile_can_start s)) [
      | inl u ↦ rw (t, u, handle_start) (build_response-IsReply opcode_start sequence _ _ _)
      | inr v ↦ rw (t, v, handle_start) (build_response-IsReply opcode_start sequence _ _ _)
    ]
  ]

  handle_get_status-IsReply :
      IsReply opcode_get_status sequence (handle_get_status b sequence request s).0
  unfolding handle_get_status
  handle_get_status-IsReply = grind (arith, build_response-IsReply)

  -- A request that is executed gets one whole response frame, with its opcode marked as answered, its
  -- sequence and a status of the protocol, for every opcode, known or not.
  pub execute-IsReply :
      (opcode : ℕ) → IsReply opcode sequence (execute b opcode sequence request s).0
  unfolding execute
  execute-IsReply opcode = ground (
    arith,
    handle_tc1001-IsReply,
    handle_stop-IsReply,
    handle_clear_config-IsReply,
    handle_set_const-IsReply,
    handle_begin_config-IsReply,
    handle_set_signal_raw-IsReply,
    handle_commit_config-IsReply,
    handle_abort_config-IsReply,
    handle_write_blob-IsReply,
    handle_set_string-IsReply,
    handle_set_global_percent-IsReply,
    handle_save_config-IsReply,
    handle_load_saved-IsReply,
    handle_erase_saved-IsReply,
    handle_set_autostart-IsReply,
    handle_start-IsReply,
    handle_get_status-IsReply,
    build_response-IsReply opcode sequence unsupported_opcode 0 0,
  )
