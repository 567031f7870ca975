-- ===== src/Frame.antt =====
-- MID/j1939_frame.{h,c}: the 29-bit CAN identifier of a J1939 frame.
--
--   28..26    25   24   23..16   15..8   7..0
--   Priority  EDP  DP   PF       PS      SA
pub mod Fields
pub mod RoundTrip
use teep_j1939_patent.Base.{ℕ, ◌/◌, ◌%◌, ◌*◌, ◌^◌, ltb, if◌then◌else◌, u8, u32, bit_and, bit_or}
use teep_j1939_patent.Base.{◌<<<◌, ◌>>>◌}

abbrev pub addr_global : ℕ
addr_global = 0xff

abbrev pub pf_pdu2_min : ℕ
pf_pdu2_min = 240

-- `J1939_Frame_Header_t`
pub record FrameHeader : Type 0 where
  pub pgn : ℕ
  pub priority : ℕ
  pub source_address : ℕ
  pub destination_address : ℕ

-- The three fields that both functions split out of a PGN or an identifier.
abbrev pub pgn_pf : ℕ → ℕ
pgn_pf pgn = u8 (bit_and (pgn >>> 8) 0xff)

abbrev pub pgn_ps : ℕ → ℕ
pgn_ps pgn = u8 (bit_and pgn 0xff)

abbrev pub pgn_dp : ℕ → ℕ
pgn_dp pgn = u8 (bit_and (pgn >>> 16) 0x01)

-- `J1939_Frame_Build_Id`; the header pointer is never NULL at its callers.
unfoldable pub build_id : FrameHeader → ℕ
build_id hdr =
    let pf = pgn_pf hdr.pgn in
    let ps = pgn_ps hdr.pgn in
    let dp = pgn_dp hdr.pgn in
    let base = bit_or (bit_or (bit_and hdr.priority 0x07 <<< 26) (dp <<< 24)) (pf <<< 16) in
    let can_id =
      if ltb pf pf_pdu2_min
      then bit_or base (hdr.destination_address <<< 8)
      else bit_or base (ps <<< 8) in
    bit_or can_id hdr.source_address

-- `J1939_Frame_Parse_Id`
pub parse_id : ℕ → FrameHeader
parse_id can_id =
    let pf = u8 (bit_and (can_id >>> 16) 0xff) in
    let ps = u8 (bit_and (can_id >>> 8) 0xff) in
    let dp = u8 (bit_and (can_id >>> 24) 0x01) in
    let priority = u8 (bit_and (can_id >>> 26) 0x07) in
    let source = u8 (bit_and can_id 0xff) in
    if ltb pf pf_pdu2_min
    then record {
      pgn = bit_or (dp <<< 16) (pf <<< 8);
      priority = priority;
      source_address = source;
      destination_address = ps;
    }
    else record {
      pgn = bit_or (bit_or (dp <<< 16) (pf <<< 8)) ps;
      priority = priority;
      source_address = source;
      destination_address = addr_global;
    }
