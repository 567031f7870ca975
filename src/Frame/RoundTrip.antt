-- ===== src/Frame/RoundTrip.antt =====
-- MID/j1939_frame.c: an identifier and its header determine each other.
use teep_j1939_patent.Base.{ℕ, ◌/◌, ◌%◌, ◌^◌, ◌≤◌, ◌<◌, ◌≡◌, arith}
use teep_j1939_patent.Frame.{FrameHeader, build_id, parse_id, pf_pdu2_min, addr_global}
use teep_j1939_patent.Frame.Fields.{InRange, build_id_fields, parse_id_fields}

-- A header as the program builds it: 18 bits of PGN (EDP is not used), three of priority, and for
-- a PDU1 PGN an empty PS byte; for a PDU2 PGN the global destination.
pub record IsCanonical (hdr : FrameHeader) : Type 0 where
  pub fits : InRange hdr
  pub priority_fits : hdr.priority < 8
  pub pgn_fits : hdr.pgn < 2 ^ 17
  pub ps_empty : hdr.pgn / 256 % 256 < pf_pdu2_min → hdr.pgn % 256 ≡ 0
  pub broadcast : pf_pdu2_min ≤ hdr.pgn / 256 % 256 → hdr.destination_address ≡ addr_global

-- Parsing what `build_id` built gives back every field of a canonical header.
pub parse_id-build_id : (hdr : FrameHeader) → IsCanonical hdr → parse_id (build_id hdr) ≡ hdr
parse_id-build_id hdr c = ground (arith, build_id_fields hdr, parse_id_fields (build_id hdr))

-- Every 29-bit identifier whose EDP bit (bit 25) is 0 is rebuilt exactly from its parsed header,
-- and the parsed header is canonical.
pub build_id-parse_id :
    (id : ℕ)
    → id < 2 ^ 29
    → id / 2 ^ 25 % 2 ≡ 0
    → (build_id (parse_id id) ≡ id) × IsCanonical (parse_id id)
build_id-parse_id id h e = ground (arith, parse_id_fields id, build_id_fields (parse_id id))
