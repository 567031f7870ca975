-- ===== src/Scheduler/Drain.antt =====
-- MID/j1939_tx_scheduler.c: what draining the queue puts on the bus.
use teep_j1939_patent.Base.{ℕ, ◌+◌, ◌%◌, ◌^◌, ◌≡◌, refl, ap, ap₂, sym, ◌∙◌, arith, inl, inr}
use teep_j1939_patent.Base.{
  List, [], ◌∷◌, ◌++◌, append_assoc, append-nil, drop, true, false, Bool-cases, length, ltb, not,
  ◌&&◌, ◌⊎◌, bit_and, u32, if◌then◌else◌,
}
use teep_j1939_patent.HalCan.{CanFrame, send_ext}
use teep_j1939_patent.Link.{send, send_to, link_status}
use teep_j1939_patent.Scheduler.{PgnEntry, TxEntry, Sched, TickResult, entry_at, entry_can_id}
use teep_j1939_patent.Scheduler.{
  time_reached, is_expired, pause_queue, drain_step, drain_loop, drain_queue, pop_queue_front,
}

-- The frame of a queue entry on the bus.
unfoldable pub frame_on_bus : List PgnEntry → TxEntry → CanFrame
frame_on_bus pgns frame = record {
  can_id = bit_and (entry_can_id (entry_at pgns frame.pgn_slot)) 0x1fff_ffff;
  bytes = frame.payload;
}

-- The frames on the bus of queue entries, without the expired ones.
unfoldable pub fresh_frames : List PgnEntry → ℕ → List TxEntry → List CanFrame
fresh_frames pgns now_ms [] = []
fresh_frames pgns now_ms (frame ∷ frames) =
    let rest = fresh_frames pgns now_ms frames in
    if is_expired frame now_ms then rest else frame_on_bus pgns frame ∷ rest

-- What a turn that pops the front frame does.
record IsPopped (s : Sched) (now_ms : ℕ) (frame : TxEntry) (t : Sched) : Type 0 where
  queue : t.queue ≡ drop 1 s.queue
  pgns : t.pgns ≡ s.pgns
  on_bus : t.can.sent ≡ s.can.sent ++ fresh_frames s.pgns now_ms (frame ∷ [])
  counted :
      (t.stats.sent + t.stats.expired) % 2 ^ 32 ≡ (s.stats.sent + s.stats.expired + 1) % 2 ^ 32

-- What a turn that ends the loop does.
record IsPaused (s : Sched) (now_ms : ℕ) (frame : TxEntry) (t : Sched) : Type 0 where
  queue : t.queue ≡ s.queue
  on_bus : t.can.sent ≡ s.can.sent
  counted : t.stats.sent + t.stats.expired ≡ s.stats.sent + s.stats.expired
  retry : t.retry_not_before_ms ≡ u32 (now_ms + 1)
  fresh : is_expired frame now_ms ≡ false

drain_step-IsPopped :
    (s : Sched) (result : TickResult) (now_ms : ℕ) (frame : TxEntry)
    → (drain_step s result now_ms frame).0 ≡ true
    → IsPopped s now_ms frame (drain_step s result now_ms frame).1.0
unfolding drain_step fresh_frames frame_on_bus pop_queue_front send send_to send_ext link_status
    entry_can_id
drain_step-IsPopped s result now_ms frame h = record {
  queue = ground (arith, h);
  pgns = ground (arith, h);
  on_bus = ground (arith, h, append-nil s.can.sent);
  counted = ground (arith, h);
}

drain_step-IsPaused :
    (s : Sched) (result : TickResult) (now_ms : ℕ) (frame : TxEntry)
    → (drain_step s result now_ms frame).0 ≡ false
    → IsPaused s now_ms frame (drain_step s result now_ms frame).1.0
unfolding drain_step pause_queue send send_to send_ext link_status
drain_step-IsPaused s result now_ms frame h = record {
  queue = ground (arith, h);
  on_bus = ground (arith, h);
  counted = ground (arith, h);
  retry = ground (arith, h);
  fresh = ground (arith, h);
}

fresh_frames-append :
    (pgns : List PgnEntry) (now_ms : ℕ) (xs ys : List TxEntry)
    → fresh_frames pgns now_ms (xs ++ ys)
      ≡ fresh_frames pgns now_ms xs ++ fresh_frames pgns now_ms ys
unfolding fresh_frames
fresh_frames-append pgns now_ms [] ys = refl
fresh_frames-append pgns now_ms (x ∷ xs) ys = ground (arith, fresh_frames-append pgns now_ms xs ys)

-- What draining does to the queue, the bus and the counters: the popped frames are the front of
-- the queue; those not expired are on the bus, in order and nothing else; each is counted as sent
-- or as expired; and a frame that is left is not expired and waits for the next millisecond.
pub record IsDrained (s : Sched) (now_ms : ℕ) (t : Sched) (popped : List TxEntry) : Type 0 where
  pub queue : s.queue ≡ popped ++ t.queue
  pub on_bus : t.can.sent ≡ s.can.sent ++ fresh_frames s.pgns now_ms popped
  pub counted :
      (t.stats.sent + t.stats.expired) % 2 ^ 32
      ≡ (s.stats.sent + s.stats.expired + length popped) % 2 ^ 32
  pub waits :
      (frame : TxEntry) (rest : List TxEntry)
      → t.queue ≡ frame ∷ rest
      → (is_expired frame now_ms ≡ false) × (t.retry_not_before_ms ≡ u32 (now_ms + 1))

after_pop :
    (s t u : Sched) (now_ms : ℕ) (frame : TxEntry) (frames popped : List TxEntry)
    → s.queue ≡ frame ∷ frames
    → IsPopped s now_ms frame t
    → IsDrained t now_ms u popped
    → IsDrained s now_ms u (frame ∷ popped)
after_pop s t u now_ms frame frames popped e p d = record {
  queue = e ∙ ap (λ q. frame ∷ q) (sym (p.queue ∙ ap (drop 1) e) ∙ d.queue);
  on_bus =
      d.on_bus
      ∙ ap₂ (λ sent pgns. sent ++ fresh_frames pgns now_ms popped) p.on_bus p.pgns
      ∙ append_assoc s.can.sent _ _
      ∙ ap (λ fs. s.can.sent ++ fs) (sym (fresh_frames-append s.pgns now_ms (frame ∷ []) popped));
  counted = omega (arith, p.counted, d.counted);
  waits = d.waits;
}

drain_loop-IsDrained :
    (frames : List TxEntry) (s : Sched) (result : TickResult) (now_ms : ℕ)
    → s.queue ≡ frames
    → (popped : List TxEntry) × IsDrained s now_ms (drain_loop frames s result now_ms).0 popped
unfolding drain_loop fresh_frames
drain_loop-IsDrained [] s result now_ms e = (
  [],
  record {
    queue = refl;
    on_bus = sym (append-nil s.can.sent);
    counted = omega arith;
    waits = λ frame rest h. ground (arith, e, h);
  },
)
drain_loop-IsDrained (frame ∷ frames) s result now_ms e =
    let step = drain_step s result now_ms frame in
    elim (Bool-cases step.0) [
      | inl goes_on ↦
          let p = drain_step-IsPopped s result now_ms frame goes_on in
          let (popped, d) =
            drain_loop-IsDrained frames step.1.0 step.1.1 now_ms (p.queue ∙ ap (drop 1) e) in
          rw (goes_on, drain_loop)
            (
              frame ∷ popped,
              after_pop s step.1.0 (drain_loop frames step.1.0 step.1.1 now_ms).0 now_ms frame
                  frames popped e p d,
            )
      | inr stops ↦
          let p = drain_step-IsPaused s result now_ms frame stops in
          rw (stops, drain_loop)
            (
              [],
              record {
                queue = sym p.queue;
                on_bus = p.on_bus ∙ sym (append-nil s.can.sent);
                counted = omega (arith, p.counted);
                waits = λ front rest h. (ground (arith, p.fresh, p.queue, e, h), p.retry);
              },
            )
    ]

-- Draining at `now_ms`, once the pause of the last refused send is over or the queue is empty:
-- the popped frames are the front of the queue, those of them that are not expired are on the bus
-- in order and nothing else is, each popped frame is counted as sent or as expired (modulo 2^32),
-- and where a frame is left it is not expired and the next attempt is a millisecond later.
pub drain_queue-IsDrained :
    (s : Sched) (result : TickResult) (now_ms : ℕ)
    → (s.queue ≡ []) ⊎ (time_reached now_ms s.retry_not_before_ms ≡ true)
    → (popped : List TxEntry) × IsDrained s now_ms (drain_queue s result now_ms).0 popped
unfolding drain_queue
drain_queue-IsDrained s result now_ms ready =
    rw (goes ready) (drain_loop-IsDrained s.queue s result now_ms refl)
  where
    goes :
        (s.queue ≡ []) ⊎ (time_reached now_ms s.retry_not_before_ms ≡ true)
        → (ltb 0 (length s.queue) && not (time_reached now_ms s.retry_not_before_ms)) ≡ false
    goes r = ground (arith, r)
