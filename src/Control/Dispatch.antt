-- ===== src/Control/Dispatch.antt =====
-- APP/app_control_can.c: which frames `prv_handle_control_frame` executes, refuses and ignores.
use teep_j1939_patent.Base.{
  ℕ, ◌+◌, ◌<◌, ◌≤◌, ◌≡◌, ◌≢◌, refl, ap, arith, List, get_or, length, true, false,
}
use teep_j1939_patent.Base.{◌&&◌, ltb, ◌==◌, ◌!=◌, u32, bit_and, Bool-cases, inl, inr, ◌⊎◌}
use teep_j1939_patent.Frame.{FrameHeader}
use teep_j1939_patent.Control.Defs.{
  Node, ControlStatus, bad_dlc, bad_argument, build_response, frame_length,
}
use teep_j1939_patent.Control.Defs.{response_mask}
use teep_j1939_patent.Control.Backend.{Backend}
use teep_j1939_patent.Control.Replay.{send_now-cache}
use teep_j1939_patent.Control.Frames.{
  wrong_endpoint, build_and_send_uncached, handle_request, send_now,
}
use teep_j1939_patent.Control.Frames.{handle_control_frame}

-- The only frames that the module acts on: of PGN 0xEF00 with priority 6, from the tester at 0xF9 to
-- the module at 0x80
pub record IsAddressed (header : FrameHeader) : Type 0 where
  pub proprietary_a : header.pgn ≡ 0xef00
  pub of_priority : header.priority ≡ 6
  pub from_tester : header.source_address ≡ 0xf9
  pub to_module : header.destination_address ≡ 0x80

-- Another PGN, another priority, another sender or another receiver
abbrev pub IsElsewhere : FrameHeader → Type 0
IsElsewhere header =
    (header.pgn ≢ 0xef00)
    ⊎ ((header.priority ≢ 6)
        ⊎ ((header.source_address ≢ 0xf9) ⊎ (header.destination_address ≢ 0x80)))

-- The node once the frame has been counted as received
abbrev pub counted : {S : Type 0} → Node S → Node S
counted n = record n {
  control = record n.control {
    stats = record n.control.stats { received = u32 (n.control.stats.received + 1) };
  };
}

-- What becomes of a frame. One that is elsewhere, is itself a response, or has no sequence, leaves
-- everything but the statistics. One of another length than 8 bytes, or with sequence 0, is answered
-- with the error that says so, and neither the cache nor, beyond a reading of the clock, the rest of
-- the program changes. Any other is handled as a request.
pub data Handled {S : Type 0} (b : Backend S) (header : FrameHeader) (bytes : List ℕ) (n m : Node S)
    : Type 0 where
  ignored :
      IsElsewhere header ⊎ ((length bytes < 2) ⊎ (bit_and (get_or bytes 0 0) 0x80 ≢ 0))
      → m.app ≡ n.app
      → m.can ≡ n.can
      → m.control ≡ record n.control { stats = m.control.stats }
      → m.control.stats.received ≡ u32 (n.control.stats.received + 1)
      → Handled b header bytes n m
  refused :
      (status : ControlStatus) (detail : ℕ)
      → IsAddressed header
      → 2 ≤ length bytes
      → bit_and (get_or bytes 0 0) 0x80 ≡ 0
      → ((length bytes ≢ 8) × (status ≡ bad_dlc) × (detail ≡ length bytes))
        ⊎ ((length bytes ≡ 8) × (get_or bytes 1 0 ≡ 0) × (status ≡ bad_argument) × (detail ≡ 0))
      → m
        ≡ send_now b
            (build_response (get_or bytes 0 0) (get_or bytes 1 0) status detail 0)
            (counted n)
      → m.app ≡ (b.time_ms n.app).1
      → m.control.cache ≡ n.control.cache
      → Handled b header bytes n m
  requested :
      IsAddressed header
      → length bytes ≡ 8
      → bit_and (get_or bytes 0 0) 0x80 ≡ 0
      → get_or bytes 1 0 ≢ 0
      → m ≡ handle_request b 0xf9 bytes (counted n)
      → Handled b header bytes n m

elsewhere : (header : FrameHeader) → wrong_endpoint header ≡ true → IsElsewhere header
elsewhere header e = ground (arith, e)

addressed : (header : FrameHeader) → wrong_endpoint header ≡ false → IsAddressed header
addressed header e = record {
  proprietary_a = ground (arith, e);
  of_priority = ground (arith, e);
  from_tester = ground (arith, e);
  to_module = ground (arith, e);
}

module _ {S : Type 0} (b : Backend S) where
  refused-Handled :
      (header : FrameHeader) (bytes : List ℕ) (n : Node S) (status : ControlStatus) (detail : ℕ)
      → IsAddressed header
      → 2 ≤ length bytes
      → bit_and (get_or bytes 0 0) 0x80 ≡ 0
      → ((length bytes ≢ 8) × (status ≡ bad_dlc) × (detail ≡ length bytes))
        ⊎ ((length bytes ≡ 8) × (get_or bytes 1 0 ≡ 0) × (status ≡ bad_argument) × (detail ≡ 0))
      → Handled b header bytes n (
          send_now b
            (build_response (get_or bytes 0 0) (get_or bytes 1 0) status detail 0)
            (counted n))
  refused-Handled header bytes n status detail here long request why =
      let kept =
        send_now-cache b (build_response (get_or bytes 0 0) (get_or bytes 1 0) status detail 0)
          (counted n) in
      refused status detail here long request why refl kept.1 kept.0

  -- Every frame that `prv_handle_control_frame` receives is counted, and then exactly one of three
  -- things happens. It is ignored, and nothing but the statistics changes, if it is not PGN 0xEF00
  -- with priority 6 from 0xF9 to 0x80, if it has the response bit, or if it is shorter than 2 bytes.
  -- Else, if it has another length than 8 or sequence 0, it gets one response with the error that
  -- says so, and it is not executed: the cache stays, and the rest of the program changes by a
  -- reading of the clock. Else it is handled as a request.
  pub handle_control_frame-Handled :
      (header : FrameHeader) (bytes : List ℕ) (n : Node S)
      → Handled b header bytes n (handle_control_frame b header bytes n)
  unfolding handle_control_frame build_and_send_uncached
  handle_control_frame-Handled header bytes n = elim (Bool-cases (wrong_endpoint header)) [
    | inl wrong ↦
        rw (wrong, handle_control_frame)
          (ignored (inl (elsewhere header wrong)) refl refl refl refl)
    | inr right ↦
        elim (Bool-cases
          (ltb 0 (length bytes) && (bit_and (get_or bytes 0 0) response_mask != 0))) [
            | inl answer ↦
                rw (right, answer, handle_control_frame)
                  (ignored (inr (inr (ground (arith, answer)))) refl refl refl refl)
            | inr plain ↦ elim (Bool-cases (ltb (length bytes) 2)) [
              | inl short ↦
                  rw (right, plain, short, handle_control_frame)
                    (ignored (inr (inl (ground (arith, short)))) refl refl refl refl)
              | inr whole ↦
                  let here = addressed header right in
                  let long : 2 ≤ length bytes = ground (arith, whole) in
                  let request : bit_and (get_or bytes 0 0) 0x80 ≡ 0 = ground (arith, plain, long) in
                  elim (Bool-cases (length bytes != frame_length)) [
                    | inl odd ↦
                        rw (right, plain, whole, odd, handle_control_frame)
                          (refused-Handled header bytes n bad_dlc (length bytes) here long request
                            (inl (ground (arith, odd), refl, refl)))
                    | inr eight ↦
                        let exact : length bytes ≡ 8 = ground (arith, eight) in
                        elim (Bool-cases (get_or bytes 1 0 == 0)) [
                          | inl empty ↦
                              rw (right, plain, whole, eight, empty, handle_control_frame)
                                (refused-Handled header bytes n bad_argument 0 here long request
                                  (inr (exact, ground (arith, empty), refl, refl)))
                          | inr numbered ↦
                              rw (right, plain, whole, eight, numbered, handle_control_frame)
                                (requested here exact request (λ k. ground (arith, k, numbered))
                                  (ap (λ source. handle_request b source bytes (counted n))
                                    here.from_tester))
                        ]
                  ]
            ]
          ]
  ]
