-- ===== src/Link.antt =====
-- MID/j1939_link.{h,c}: sending and receiving a PGN through the CAN driver. The diagnostics, which
-- only pass a driver call on, are not modelled.
pub mod Delivery
use teep_j1939_patent.Base.{ℕ, List, Option, none, some}
use teep_j1939_patent.Frame.{FrameHeader, addr_global, build_id, parse_id}
use teep_j1939_patent.HalCan.{Can, TxStatus, hcan_tx_ok, hcan_tx_timeout, hcan_tx_error}
use teep_j1939_patent.HalCan.{send_ext, receive_ext}

-- `J1939_Link_Status_t`
pub data LinkStatus : Type 0 where
  link_ok link_busy link_error : LinkStatus

-- The `switch` of `J1939_Link_Send_To`.
unfoldable pub link_status : TxStatus → LinkStatus
link_status hcan_tx_ok = link_ok
link_status hcan_tx_timeout = link_busy
link_status hcan_tx_error = link_error

-- `J1939_Link_Send_To`
unfoldable pub send_to : Can → ℕ → List ℕ → ℕ → ℕ → ℕ → LinkStatus × Can
send_to can pgn bytes priority source_address destination_address =
    let hdr : FrameHeader = record {
      pgn = pgn;
      priority = priority;
      source_address = source_address;
      destination_address = destination_address;
    } in
    let (status, can') = send_ext can (build_id hdr) bytes in (link_status status, can')

-- `J1939_Link_Send`
unfoldable pub send : Can → ℕ → List ℕ → ℕ → ℕ → LinkStatus × Can
send can pgn bytes priority source_address =
    send_to can pgn bytes priority source_address addr_global

-- `J1939_Link_Receive`
unfoldable pub receive : Can → Option (FrameHeader × List ℕ) × Can
receive can =
    let (got, can') = receive_ext can in
    (elim got [ none ↦ none | some (can_id, bytes) ↦ some (parse_id can_id, bytes) ], can')
