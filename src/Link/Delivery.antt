-- ===== src/Link/Delivery.antt =====
-- MID/j1939_link.c: what a send puts on the bus, and that a receiver's link reads it back.
use teep_j1939_patent.Base.{ℕ, ◌^◌, ◌≤◌, ◌<◌, ◌≡◌, refl, ap, arith, List, [], ◌∷◌, ◌++◌}
use teep_j1939_patent.Base.{length, take, Bool, true, some, bit_and, bit_and_mask}
use teep_j1939_patent.Frame.{FrameHeader, build_id}
use teep_j1939_patent.Frame.Fields.{build_id_fields}
use teep_j1939_patent.Frame.RoundTrip.{IsCanonical, parse_id-build_id}
use teep_j1939_patent.HalCan.{hcan_tx_ok, Can, CanFrame, RxMessage, send_ext, receive_ext}
use teep_j1939_patent.Link.{link_ok, send_to, receive, link_status}

build_id-lt : (hdr : FrameHeader) → IsCanonical hdr → build_id hdr < 2 ^ 29
build_id-lt hdr c = ground (arith, build_id_fields hdr)

-- The message that a sent frame is in another controller's receive FIFO.
abbrev pub as_received : CanFrame → RxMessage
as_received f = record { extended = true; ext_id = f.can_id; dlc = length f.bytes; bytes = f.bytes }

take_all : (bytes : List ℕ) → take (length bytes) bytes ≡ bytes
take_all [] = refl
take_all (b ∷ bs) = ap (λ t. b ∷ t) (take_all bs)

mask_29 : (hdr : FrameHeader) → IsCanonical hdr → bit_and (build_id hdr) 0x1fff_ffff ≡ build_id hdr
mask_29 hdr c = omega (arith, bit_and_mask 29 (build_id hdr), build_id-lt hdr c)

abbrev frame_of : FrameHeader → List ℕ → CanFrame
frame_of hdr bytes = record { can_id = build_id hdr; bytes = bytes }

send_ext-sent :
    (can : Can) (hdr : FrameHeader) (bytes : List ℕ) (later : List Bool)
    → IsCanonical hdr
    → length bytes ≤ 8
    → can.started ≡ true
    → can.mailbox_free ≡ true ∷ later
    → send_ext can (build_id hdr) bytes ≡ (
      hcan_tx_ok,
      record can { mailbox_free = later; sent = can.sent ++ frame_of hdr bytes ∷ [] },
    )
unfolding send_ext
send_ext-sent can hdr bytes later c short on free = ground (arith, on, free, mask_29 hdr c)

receives_frame :
    (hdr : FrameHeader) (bytes : List ℕ) (peer : Can) (rest : List RxMessage)
    → IsCanonical hdr
    → length bytes ≤ 8
    → (receive (record peer { fifo = as_received (frame_of hdr bytes) ∷ rest })).0
      ≡ some (hdr, bytes)
unfolding receive receive_ext
receives_frame hdr bytes peer rest c short = ground (arith, take_all bytes, parse_id-build_id hdr c)

-- A frame of at most 8 bytes with a canonical header, sent by a started controller with a free
-- mailbox, is answered OK and is the next frame on the bus; a controller that has it at the head
-- of its receive FIFO reads back the same header and bytes.
pub send_to-receive :
    (can peer : Can) (hdr : FrameHeader) (bytes : List ℕ) (later : List Bool)
    → IsCanonical hdr
    → length bytes ≤ 8
    → can.started ≡ true
    → can.mailbox_free ≡ true ∷ later
    → let (status, can') =
        send_to can hdr.pgn bytes hdr.priority hdr.source_address hdr.destination_address in
      (f : CanFrame) × (status ≡ link_ok)
      × (can'.sent ≡ can.sent ++ f ∷ [])
      × ((rest : List RxMessage)
          → (receive (record peer { fifo = as_received f ∷ rest })).0 ≡ some (hdr, bytes))
unfolding send_to link_status
send_to-receive can peer hdr bytes later c short on free =
    let sent = send_ext-sent can hdr bytes later c short on free in
    (
      frame_of hdr bytes,
      ap (λ r. link_status r.0) sent,
      ap (λ r. r.1.sent) sent,
      λ rest. receives_frame hdr bytes peer rest c short,
    )
