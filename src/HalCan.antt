-- ===== src/HalCan.antt =====
-- HAL/hal_can_stm32f1.c: the sending and receiving halves of the bxCAN driver. What the hardware
-- decides is a list of its successive answers: for each send attempt whether TSR shows a free
-- mailbox, and the messages of receive FIFO 0. Beyond the lists there is no free mailbox and no
-- message.
use teep_j1939_patent.Base.{ℕ, List, [], ◌∷◌, ◌++◌, length, take, Bool, not, ◌||◌}
use teep_j1939_patent.Base.{Option, none, some, ltb, if◌then◌else◌, bit_and}

-- `hal_can_tx_status_t`
pub data TxStatus : Type 0 where
  hcan_tx_ok hcan_tx_timeout hcan_tx_error : TxStatus

-- What a mailbox is loaded with.
pub record CanFrame : Type 0 where
  pub can_id : ℕ
  pub bytes : List ℕ

-- One message of the receive FIFO: the IDE bit, the identifier, the DLC and the data registers.
pub record RxMessage : Type 0 where
  pub extended : Bool
  pub ext_id : ℕ
  pub dlc : ℕ
  pub bytes : List ℕ

pub record Can : Type 0 where
  pub started : Bool
  pub mailbox_free : List Bool
  pub sent : List CanFrame
  pub fifo : List RxMessage

-- `hal_can_send_ext`; `bytes` is `data[0..len)`.
unfoldable pub send_ext : Can → ℕ → List ℕ → TxStatus × Can
send_ext can ext_id bytes =
    if not can.started || ltb 8 (length bytes)
    then (hcan_tx_error, can)
    else elim can.mailbox_free [
      | [] ↦ (hcan_tx_timeout, can)
      | free ∷ later ↦
          if free
          then (
            hcan_tx_ok,
            record can {
              mailbox_free = later;
              sent =
                  can.sent ++ (record { can_id = bit_and ext_id 0x1fff_ffff; bytes = bytes }) ∷ [];
            },
          )
          else (hcan_tx_timeout, record can { mailbox_free = later })
    ]

-- `hal_can_receive_ext`: the identifier and the data of the next message, which it releases.
unfoldable pub receive_ext : Can → Option (ℕ × List ℕ) × Can
receive_ext can = elim can.fifo [
  | [] ↦ (none, can)
  | m ∷ later ↦
      let can' = record can { fifo = later } in
      if not m.extended
      then (none, can')
      else (some (m.ext_id, take (if ltb 8 m.dlc then 8 else m.dlc) m.bytes), can')
]
