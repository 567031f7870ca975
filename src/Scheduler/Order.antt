-- ===== src/Scheduler/Order.antt =====
-- MID/j1939_tx_scheduler.c: the transmit queue is bounded, and stays in the order of sending.
use teep_j1939_patent.Base.{
  ℕ, zero, suc, ◌+◌, ◌^◌, ◌≤◌, ◌<◌, ◌≡◌, ◌≢◌, ◌⊎◌, inl, inr, refl, ap, sym, ◌∙◌, arith,
}
use teep_j1939_patent.Base.{
  List, [], ◌∷◌, ◌++◌, take, drop, length, get_or, All, leb, Bool, true, false, sub32, u32,
}
use teep_j1939_patent.Base.{Bool-cases, length-append, length-take, length-drop}
use teep_j1939_patent.Scheduler.{
  PgnEntry, TxEntry, Sched, no_frame, queue_before, insert_position, insert_frame, enqueue,
  tx_queue_capacity,
}

-- A frame in front of a queue whose front does not go before it.
abbrev pub Follows : List PgnEntry → TxEntry → List TxEntry → Type 0
Follows pgns a [] = Unit
Follows pgns a (b ∷ rest) = queue_before pgns b a ≡ false

-- The frames of a queue in the order of sending: none goes before the one in front of it.
abbrev pub InOrder : List PgnEntry → List TxEntry → Type 0
InOrder pgns [] = Unit
InOrder pgns (a ∷ rest) = Follows pgns a rest × InOrder pgns rest

-- Deadlines that are not exactly half the clock's range apart, so that one is before the other.
abbrev pub Comparable : TxEntry → TxEntry → Type 0
Comparable a b =
    (a.deadline_ms < 2 ^ 32)
    × (b.deadline_ms < 2 ^ 32)
    × (sub32 a.deadline_ms b.deadline_ms ≢ 2 ^ 31)

queue_before_asymmetric :
    (pgns : List PgnEntry) (a b : TxEntry)
    → Comparable a b
    → queue_before pgns a b ≡ true
    → queue_before pgns b a ≡ false
unfolding queue_before
queue_before_asymmetric pgns a b c h = ground (arith, c)

insert_position-le :
    (pgns : List PgnEntry) (frame : TxEntry) (queue : List TxEntry) (pos : ℕ)
    → insert_position pgns frame queue pos ≤ pos
unfolding insert_position
insert_position-le pgns frame queue zero = omega arith
insert_position-le pgns frame queue (suc pos) =
    ground (arith, insert_position-le pgns frame queue pos)

pub length-insert_frame :
    (pgns : List PgnEntry) (frame : TxEntry) (queue : List TxEntry)
    → length (insert_frame pgns frame queue) ≡ suc (length queue)
unfolding insert_frame
length-insert_frame pgns frame queue =
    let pos = insert_position pgns frame queue (length queue) in
    omega (
      arith,
      length-append (take pos queue) (frame ∷ drop pos queue),
      length-take pos queue,
      length-drop pos queue,
      insert_position-le pgns frame queue (length queue),
    )

-- Where the loop stops: behind a frame that the new one does not go before, and in front of one
-- that it does.
insert_position-behind :
    (pgns : List PgnEntry) (frame : TxEntry) (queue : List TxEntry) (pos k : ℕ)
    → suc k ≡ insert_position pgns frame queue pos
    → queue_before pgns frame (get_or queue k no_frame) ≡ false
unfolding insert_position
insert_position-behind pgns frame queue zero k h = absurd (omega (arith, h))
insert_position-behind pgns frame queue (suc pos) k h =
    ground (arith, h, insert_position-behind pgns frame queue pos k)

below_or_at : (m n : ℕ) → m ≤ n → (m < n) ⊎ (m ≡ n)
below_or_at m n h = omega arith

insert_position-before :
    (pgns : List PgnEntry) (frame : TxEntry) (queue : List TxEntry) (pos : ℕ)
    → insert_position pgns frame queue pos < pos
    → queue_before pgns frame (get_or queue (insert_position pgns frame queue pos) no_frame) ≡ true
unfolding insert_position
insert_position-before pgns frame queue zero h = absurd (omega (arith, h))
insert_position-before pgns frame queue (suc pos) h =
    let here = queue_before pgns frame (get_or queue pos no_frame) in
    let rest = insert_position pgns frame queue pos in
    elim (Bool-cases here) [
      | inl goes ↦
          let at_rest : insert_position pgns frame queue (suc pos) ≡ rest = rw goes refl in
          elim (below_or_at rest pos (insert_position-le pgns frame queue pos)) [
            | inl below ↦
                ap (λ k. queue_before pgns frame (get_or queue k no_frame)) at_rest
                ∙ insert_position-before pgns frame queue pos below
            | inr at_pos ↦
                ap (λ k. queue_before pgns frame (get_or queue k no_frame)) (at_rest ∙ at_pos)
                ∙ goes
          ]
      | inr stays ↦
          let at_end : insert_position pgns frame queue (suc pos) ≡ suc pos = rw stays refl in
          absurd (omega (arith, at_end, h))
    ]

insert_at-InOrder :
    (pgns : List PgnEntry) (frame : TxEntry) (queue : List TxEntry) (pos : ℕ)
    → pos ≤ length queue
    → InOrder pgns queue
    → ((k : ℕ) → suc k ≡ pos → queue_before pgns frame (get_or queue k no_frame) ≡ false)
    → (pos < length queue → queue_before pgns (get_or queue pos no_frame) frame ≡ false)
    → InOrder pgns (take pos queue ++ frame ∷ drop pos queue)
insert_at-InOrder pgns frame [] zero le o behind before = (tt, tt)
insert_at-InOrder pgns frame (a ∷ rest) zero le o behind before = (before (omega arith), o)
insert_at-InOrder pgns frame [] (suc pos) le o behind before = absurd (omega (arith, le))
insert_at-InOrder pgns frame (a ∷ []) (suc zero) le o behind before = (behind 0 refl, (tt, tt))
insert_at-InOrder pgns frame (a ∷ []) (suc (suc pos)) le o behind before =
    absurd (omega (arith, le))
insert_at-InOrder pgns frame (a ∷ b ∷ rest) (suc zero) le o behind before =
    (behind 0 refl, (before (omega arith), o.1))
insert_at-InOrder pgns frame (a ∷ b ∷ rest) (suc (suc pos)) le o behind before = (
  o.0,
  insert_at-InOrder pgns frame (b ∷ rest) (suc pos) (omega arith) o.1
      (λ k e. behind (suc k) (ap suc e)) (λ less. before (omega arith)),
)

All-at :
    (P : TxEntry → Type 0) (queue : List TxEntry) (k : ℕ)
    → All P queue
    → k < length queue
    → P (get_or queue k no_frame)
All-at P [] k h less = absurd (omega (arith, less))
All-at P (a ∷ rest) zero h less = h.0
All-at P (a ∷ rest) (suc k) h less = All-at P rest k h.1 (omega arith)

insert_frame-InOrder :
    (pgns : List PgnEntry) (frame : TxEntry) (queue : List TxEntry)
    → All (Comparable frame) queue
    → InOrder pgns queue
    → InOrder pgns (insert_frame pgns frame queue)
unfolding insert_frame
insert_frame-InOrder pgns frame queue comparable o =
    let pos = insert_position pgns frame queue (length queue) in
    insert_at-InOrder pgns frame queue pos (insert_position-le pgns frame queue (length queue)) o
      (insert_position-behind pgns frame queue (length queue))
      (λ less.
        queue_before_asymmetric pgns frame (get_or queue pos no_frame)
          (All-at (Comparable frame) queue pos comparable less)
          (insert_position-before pgns frame queue (length queue) less))

take-drop : (n : ℕ) (queue : List TxEntry) → take n queue ++ drop n queue ≡ queue
take-drop zero queue = refl
take-drop (suc n) [] = refl
take-drop (suc n) (a ∷ rest) = ap (λ t. a ∷ t) (take-drop n rest)

inserted :
    (s : Sched) (frame : TxEntry)
    → (before : List TxEntry) × (after : List TxEntry) × (s.queue ≡ before ++ after)
      × (insert_frame s.pgns frame s.queue ≡ before ++ frame ∷ after)
unfolding insert_frame
inserted s frame =
    let pos = insert_position s.pgns frame s.queue (length s.queue) in
    (take pos s.queue, drop pos s.queue, sym (take-drop pos s.queue), refl)

-- What `prv_enqueue` leaves in an ordered queue of at most 32 frames whose deadlines are not half
-- the clock's range from the new one's.
pub record IsEnqueued (s : Sched) (frame : TxEntry) (r : Bool × Sched) : Type 0 where
  pub ordered : InOrder s.pgns r.1.queue
  pub bounded : length r.1.queue ≤ tx_queue_capacity
  pub accepted :
      length s.queue < tx_queue_capacity
      → (r.0 ≡ true)
        × ((before : List TxEntry) × (after : List TxEntry) × (s.queue ≡ before ++ after)
            × (r.1.queue ≡ before ++ frame ∷ after))
        × (r.1.stats.enqueued ≡ u32 (s.stats.enqueued + 1))
  pub refused :
      tx_queue_capacity ≤ length s.queue
      → (r.0 ≡ false) × (r.1.queue ≡ s.queue) × (r.1.stats.dropped ≡ u32 (s.stats.dropped + 1))

-- A queue in the order of sending (short periods first, then earlier deadlines, then smaller
-- identifiers) of at most 32 frames stays so when a frame is enqueued, if the deadlines are 32-bit
-- and none is half the clock's range from the new one's. Below 32 frames the new one is put between
-- the others, which keep their order, and is counted; at 32 it is refused and counted as dropped.
pub enqueue-IsEnqueued :
    (s : Sched) (frame : TxEntry)
    → All (Comparable frame) s.queue
    → InOrder s.pgns s.queue
    → length s.queue ≤ tx_queue_capacity
    → IsEnqueued s frame (enqueue s frame)
unfolding enqueue
enqueue-IsEnqueued s frame comparable o bounded =
    elim (Bool-cases (leb tx_queue_capacity (length s.queue))) [
      | inl full ↦ rw full (record {
        ordered = o;
        bounded = bounded;
        accepted = λ less. absurd (ground (arith, full, less));
        refused = λ h. (refl, refl, refl);
      })
      | inr space ↦ rw space (record {
        ordered = insert_frame-InOrder s.pgns frame s.queue comparable o;
        bounded = omega (arith, length-insert_frame s.pgns frame s.queue, below_capacity s space);
        accepted = λ less. (refl, inserted s frame, refl);
        refused = λ h. absurd (omega (arith, below_capacity s space, h));
      })
    ]
  where
    below_capacity :
        (s : Sched)
        → leb tx_queue_capacity (length s.queue) ≡ false
        → length s.queue < tx_queue_capacity
    below_capacity s space = ground (arith, space)
