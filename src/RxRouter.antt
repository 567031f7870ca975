-- ===== src/RxRouter.antt =====
-- MID/j1939_rx_router.{h,c}: draining received frames and routing the control PGN. The handler is
-- a function on a state of its own and on the controller, through which it answers; `none` is the
-- NULL handler.
pub mod Poll
use teep_j1939_patent.Base.{
  ℕ, zero, suc, ◌+◌, ◌%◌, ◌^◌, List, Bool, true, false, Option, none, some,
}
use teep_j1939_patent.Base.{◌==◌, if◌then◌else◌, u32}
use teep_j1939_patent.Frame.{FrameHeader}
use teep_j1939_patent.HalCan.{Can}
use teep_j1939_patent.Link.{receive}

abbrev pub pgn_proprietary_a_control : ℕ
pgn_proprietary_a_control = 61184

-- `J1939_Rx_Router_Stats_t`
pub record RouterStats : Type 0 where
  pub received : ℕ
  pub control_routed : ℕ
  pub unhandled : ℕ

-- `J1939_Rx_Control_Handler_t`
abbrev pub Handler : Type 0 → Type 0
Handler S = FrameHeader → List ℕ → S → Can → S × Can

-- The router's globals, the controller and the handler's state.
pub record Router (S : Type 0) : Type 0 where
  pub handler : Option (Handler S)
  pub stats : RouterStats
  pub can : Can
  pub client : S

-- `J1939_Rx_Router_Init`
unfoldable pub router_init : {S : Type 0} → Router S → Router S
router_init r = record r {
  handler = none;
  stats = record { received = 0; control_routed = 0; unhandled = 0 };
}

-- `J1939_Rx_Router_Set_Control_Handler`
unfoldable pub set_control_handler : {S : Type 0} → Router S → Handler S → Router S
set_control_handler r h = record r { handler = some h }

-- One received frame.
unfoldable pub route : {S : Type 0} → Router S → FrameHeader → List ℕ → Router S
route r header bytes =
    let seen = record r.stats { received = u32 (r.stats.received + 1) } in
    elim r.handler [
      | some h ↦
          if header.pgn == pgn_proprietary_a_control
          then (let (client', can') = h header bytes r.client r.can in
              record r {
                stats = record seen { control_routed = u32 (seen.control_routed + 1) };
                client = client';
                can = can';
              })
          else record r { stats = record seen { unhandled = u32 (seen.unhandled + 1) } }
      | none ↦ record r { stats = record seen { unhandled = u32 (seen.unhandled + 1) } }
    ]

-- `J1939_Rx_Router_Poll`; the recursion is on the budget that is left.
unfoldable pub poll : {S : Type 0} → ℕ → Router S → Router S
poll zero r = r
poll (suc budget) r =
    let (got, can') = receive r.can in
    let r' = record r { can = can' } in
    elim got [ none ↦ r' | some (header, bytes) ↦ poll budget (route r' header bytes) ]
