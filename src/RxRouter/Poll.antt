-- ===== src/RxRouter/Poll.antt =====
-- MID/j1939_rx_router.c: which frames a poll takes, and how it counts them.
use teep_j1939_patent.Base.{
  ℕ, zero, suc, ◌+◌, ◌%◌, ◌^◌, ◌≡◌, refl, ap, ◌∙◌, arith, List, [], ◌∷◌, length,
}
use teep_j1939_patent.Base.{
  none, some, ◌==◌, if◌then◌else◌, ltb, take, true, false, Option-cases, Bool-cases, ◌⊎◌, sym, inl,
  inr,
}
use teep_j1939_patent.Frame.{FrameHeader, parse_id}
use teep_j1939_patent.HalCan.{Can, RxMessage, receive_ext}
use teep_j1939_patent.Link.{receive}
use teep_j1939_patent.RxRouter.{
  Router, RouterStats, Handler, route, poll, pgn_proprietary_a_control,
}

-- The counters of routed and of other frames add up to the frames received.
abbrev pub Balanced : RouterStats → Type 0
Balanced s = s.received % 2 ^ 32 ≡ (s.control_routed + s.unhandled) % 2 ^ 32

route-Balanced :
    {S : Type 0} (r : Router S) (header : FrameHeader) (bytes : List ℕ)
    → Balanced r.stats
    → Balanced (route r header bytes).stats
unfolding route
route-Balanced r header bytes b = ground (arith, b)

-- One turn of the poll's loop.
poll_stops :
    {S : Type 0} (budget : ℕ) (r : Router S)
    → (receive r.can).0 ≡ none
    → poll (suc budget) r ≡ record r { can = (receive r.can).1 }
unfolding poll receive
poll_stops budget r e = rw (e, poll) refl

poll_goes_on :
    {S : Type 0} (budget : ℕ) (r : Router S) (frame : FrameHeader × List ℕ)
    → (receive r.can).0 ≡ some frame
    → poll (suc budget) r
      ≡ poll budget (route (record r { can = (receive r.can).1 }) frame.0 frame.1)
unfolding poll
poll_goes_on budget r frame e = rw (e, poll) refl

-- Whatever frames arrive and whatever the handler does, a poll keeps the number of received frames
-- equal to the number handed to the control handler plus the number counted as unhandled, modulo
-- 2^32.
pub poll-Balanced :
    {S : Type 0} (budget : ℕ) (r : Router S) → Balanced r.stats → Balanced (poll budget r).stats
unfolding poll
poll-Balanced zero r b = b
poll-Balanced (suc budget) r b = elim (Option-cases (receive r.can).0) [
  | inl e ↦ rw (poll_stops budget r e) b
  | inr (frame, e) ↦ rw (poll_goes_on budget r frame e) (
      poll-Balanced budget (route (record r { can = (receive r.can).1 }) frame.0 frame.1)
        (route-Balanced (record r { can = (receive r.can).1 }) frame.0 frame.1 b))
]

-- The messages that a poll takes and routes: the extended ones up to the first other one, which
-- it drops and stops at, and at most `budget` of them.
unfoldable pub taken : ℕ → List RxMessage → List RxMessage
taken zero ms = []
taken (suc budget) [] = []
taken (suc budget) (m ∷ ms) = if m.extended then m ∷ taken budget ms else []

unfoldable pub left_over : ℕ → List RxMessage → List RxMessage
left_over zero ms = ms
left_over (suc budget) [] = []
left_over (suc budget) (m ∷ ms) = if m.extended then left_over budget ms else ms

unfoldable pub control_count : List RxMessage → ℕ
control_count [] = 0
control_count (m ∷ ms) =
    (if (parse_id m.ext_id).pgn == pgn_proprietary_a_control then 1 else 0) + control_count ms

-- A handler that answers through the controller without touching its receive FIFO.
abbrev pub KeepsFifo : {S : Type 0} → Handler S → Type 0
KeepsFifo {S} h =
    (header : FrameHeader) (bytes : List ℕ) (s : S) (can : Can)
    → (h header bytes s can).1.fifo ≡ can.fifo

pub record IsPolled {S : Type 0} (budget : ℕ) (r r' : Router S) : Type 0 where
  pub fifo : r'.can.fifo ≡ left_over budget r.can.fifo
  pub received :
      r'.stats.received % 2 ^ 32 ≡ (r.stats.received + length (taken budget r.can.fifo)) % 2 ^ 32
  pub routed :
      r'.stats.control_routed % 2 ^ 32
      ≡ (r.stats.control_routed + control_count (taken budget r.can.fifo)) % 2 ^ 32

received_frame : RxMessage → FrameHeader × List ℕ
received_frame m = (parse_id m.ext_id, take (if ltb 8 m.dlc then 8 else m.dlc) m.bytes)

receive-extended :
    (can : Can) (m : RxMessage) (ms : List RxMessage)
    → can.fifo ≡ m ∷ ms
    → m.extended ≡ true
    → receive can ≡ (some (received_frame m), record can { fifo = ms })
unfolding receive receive_ext received_frame
receive-extended can m ms e x = ground (arith, e, x)

receive-other :
    (can : Can) (m : RxMessage) (ms : List RxMessage)
    → can.fifo ≡ m ∷ ms
    → m.extended ≡ false
    → receive can ≡ (none, record can { fifo = ms })
unfolding receive receive_ext
receive-other can m ms e x = ground (arith, e, x)

receive-empty : (can : Can) → can.fifo ≡ [] → receive can ≡ (none, can)
unfolding receive receive_ext
receive-empty can e = ground (arith, e)

route-counts :
    {S : Type 0} (r : Router S) (h : Handler S) (header : FrameHeader) (bytes : List ℕ)
    → r.handler ≡ some h
    → KeepsFifo h
    → let r' = route r header bytes in
      (r'.can.fifo ≡ r.can.fifo)
      × (r'.handler ≡ some h)
      × (r'.stats.received % 2 ^ 32 ≡ (r.stats.received + 1) % 2 ^ 32)
      × (r'.stats.control_routed % 2 ^ 32
          ≡ (r.stats.control_routed + (if header.pgn == pgn_proprietary_a_control then 1 else 0))
            % 2 ^ 32)
unfolding route
route-counts r h header bytes on keeps = ground (arith, on, keeps header bytes r.client r.can)

Fifo-cases :
    (ms : List RxMessage)
    → (ms ≡ [])
      ⊎ ((m : RxMessage) × (later : List RxMessage) × (ms ≡ m ∷ later)
          × ((m.extended ≡ true) ⊎ (m.extended ≡ false)))
Fifo-cases [] = inl refl
Fifo-cases (m ∷ ms) = inr (m, ms, refl, Bool-cases m.extended)

poll_at_end :
    {S : Type 0} (budget : ℕ) (r : Router S) (later : List RxMessage)
    → receive r.can ≡ (none, record r.can { fifo = later })
    → left_over (suc budget) r.can.fifo ≡ later
    → taken (suc budget) r.can.fifo ≡ []
    → IsPolled (suc budget) r (poll (suc budget) r)
unfolding control_count
poll_at_end budget r later e left took = rw (poll_stops budget r (ap (λ p. p.0) e)) (record {
  fifo = ap (λ p. p.1.fifo) e ∙ sym left;
  received = rw took (omega arith);
  routed = rw took (omega arith);
})

poll_one_more :
    {S : Type 0} (budget : ℕ) (r r' : Router S) (m : RxMessage) (later : List RxMessage)
    → r.can.fifo ≡ m ∷ later
    → m.extended ≡ true
    → r'.can.fifo ≡ later
    → r'.stats.received % 2 ^ 32 ≡ (r.stats.received + 1) % 2 ^ 32
    → r'.stats.control_routed % 2 ^ 32
      ≡ (r.stats.control_routed
          + (if (parse_id m.ext_id).pgn == pgn_proprietary_a_control then 1 else 0))
        % 2 ^ 32
    → IsPolled budget r' (poll budget r')
    → IsPolled (suc budget) r (poll budget r')
unfolding taken left_over control_count
poll_one_more budget r r' m later e x fifo received routed p = record {
  fifo = ground (arith, p.fifo);
  received = ground (arith, p.received);
  routed = ground (arith, p.routed);
}

-- With a control handler that leaves the receive FIFO alone, a poll takes exactly the extended
-- messages up to its budget or the first other message, and counts them as received; those with
-- the control PGN are counted as routed (all counters modulo 2^32).
pub poll-IsPolled :
    {S : Type 0} (budget : ℕ) (r : Router S) (h : Handler S)
    → r.handler ≡ some h
    → KeepsFifo h
    → IsPolled budget r (poll budget r)
unfolding poll taken left_over control_count received_frame
poll-IsPolled zero r h on keeps = record {
  fifo = refl;
  received = omega arith;
  routed = omega arith;
}
poll-IsPolled (suc budget) r h on keeps = elim (Fifo-cases r.can.fifo) [
  | inl e ↦
      poll_at_end budget r []
        (receive-empty r.can e ∙ ap (λ ms. (none, record r.can { fifo = ms })) e) (rw e refl)
        (rw e refl)
  | inr (m, later, e, inl x) ↦
      let got = receive-extended r.can m later e x in
      let frame = received_frame m in
      let r' = route (record r { can = (receive r.can).1 }) frame.0 frame.1 in
      let (fifo, handler, received, routed) =
        route-counts (record r { can = (receive r.can).1 }) h frame.0 frame.1 on keeps in
      rw (poll_goes_on budget r frame (ap (λ p. p.0) got)) (
        poll_one_more budget r r' m later e x (fifo ∙ ap (λ p. p.1.fifo) got) received routed
          (poll-IsPolled budget r' h handler keeps))
  | inr (m, later, e, inr x) ↦
      poll_at_end budget r later (receive-other r.can m later e x) (rw (e, x) refl) (rw (e, x) refl)
]
