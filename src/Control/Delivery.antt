-- ===== src/Control/Delivery.antt =====
-- APP/app_control_can.c: deferred responses leave in the order in which they came.
use teep_j1939_patent.Base.{
  ℕ, zero, suc, ◌+◌, ◌-◌, ◌≤◌, ◌<◌, ◌≡◌, refl, ◌∙◌, ap, ap₂, sym, subst, arith,
}
use teep_j1939_patent.Base.{List, [], ◌∷◌, length, false, ltb, ◌==◌, if◌then◌else◌, u32, sub32}
use teep_j1939_patent.Base.{Bool-cases, inl, inr}
use teep_j1939_patent.HalCan.{Can}
use teep_j1939_patent.Link.{LinkStatus, link_ok, link_busy, link_error}
use teep_j1939_patent.Control.Defs.{
  Control, ControlStats, DeferredEntry, Node, dedup_window_ms, tx_retry_delay_ms,
}
use teep_j1939_patent.Control.Queue.{deadline_reached, transmit_response, queue_at, pop_tx_queue}
use teep_j1939_patent.Control.Queue.{defer_response, count_queued, count_refused, is_link_ok}
use teep_j1939_patent.Control.Queue.{send_response, process_round, process_loop, process_responses}
use teep_j1939_patent.Control.Fifo.{
  length-entries_from, IsRing, queued, entries_from, defer_to, queued-defer,
}
use teep_j1939_patent.Control.Fifo.{queued_same, IsRing-same}
use teep_j1939_patent.Control.Waiting.{Refines, retry_list, send_list, queued-cons, pop-Taken}

count_refused-IsRing :
    (status : LinkStatus) (c : Control)
    → IsRing c
    → IsRing (count_refused status c) × (queued (count_refused status c) ≡ queued c)
unfolding count_refused
count_refused-IsRing link_busy c h = (
  IsRing-same c (count_refused link_busy c) refl refl refl h,
  queued_same c (count_refused link_busy c) refl refl refl,
)
count_refused-IsRing link_ok c h = (
  IsRing-same c (count_refused link_ok c) refl refl refl h,
  queued_same c (count_refused link_ok c) refl refl refl,
)
count_refused-IsRing link_error c h = (
  IsRing-same c (count_refused link_error c) refl refl refl h,
  queued_same c (count_refused link_error c) refl refl refl,
)

send_list_waiting :
    (response : List ℕ) (now_ms : ℕ) (es : List DeferredEntry) (can : Can)
    → 0 < length es
    → send_list response now_ms es can ≡ (defer_to response now_ms es, can)
send_list_waiting response now_ms [] can h = absurd (omega arith)
send_list_waiting response now_ms (e ∷ es) can h = refl

-- `prv_send_response` does to the ring and the controller what the list says: where nothing waits,
-- the response is sent at once and waits only if the controller does not take it; otherwise it waits
-- behind the others, unless the same response waits already or four do.
pub send_response-Refines :
    {S : Type 0} (response : List ℕ) (now_ms : ℕ) (n : Node S)
    → IsRing n.control
    → Refines (send_response response now_ms n) (send_list response now_ms (queued n.control) n.can)
unfolding send_response
send_response-Refines {S = S} response now_ms n h =
    let c = n.control in
    let sent = transmit_response response n.can in
    elim (Bool-cases (ltb 0 c.tx_queue_count)) [
      | inl waiting ↦
          let deferred = queued-defer response now_ms c h in
          let w : Node S = record n { control = defer_response response now_ms c } in
          let some_left : 0 < length (queued c) =
            ground (arith, length-entries_from c c.tx_queue_count 0) in
          rw (waiting, send_response)
            (subst (Refines w) (sym (send_list_waiting response now_ms (queued c) n.can some_left))
              record { ring = deferred.0; entries = deferred.1; controller = refl })
      | inr idle ↦
          let none_left : c.tx_queue_count ≡ 0 = ground arith in
          let empty : queued c ≡ [] = ap (λ k. entries_from c k 0) none_left in
          elim (Bool-cases (is_link_ok sent.0)) [
            | inl taken ↦
                let w : Node S = record n { control = count_queued c; can = sent.1 } in
                let spec : send_list response now_ms (queued c) n.can ≡ ([], sent.1) =
                  ap (λ es. send_list response now_ms es n.can) empty
                  ∙ ap (λ t. if t then ([], sent.1) else (defer_to response now_ms [], sent.1))
                      taken in
                rw (idle, taken, send_response)
                  (subst (Refines w) (sym spec) record {
                    ring = IsRing-same c (count_queued c) refl refl refl h;
                    entries = queued_same c (count_queued c) refl refl refl ∙ empty;
                    controller = refl;
                  })
            | inr refused ↦
                let counted = count_refused-IsRing sent.0 c h in
                let d = count_refused sent.0 c in
                let deferred = queued-defer response now_ms d counted.0 in
                let waits = defer_response response now_ms d in
                let last : Control = record waits {
                  tx_retry_not_before_ms = u32 (now_ms + tx_retry_delay_ms);
                } in
                let w : Node S = record n { control = last; can = sent.1 } in
                let spec : send_list response now_ms (queued c) n.can
                    ≡ (defer_to response now_ms [], sent.1) =
                  ap (λ es. send_list response now_ms es n.can) empty
                  ∙ ap (λ t. if t then ([], sent.1) else (defer_to response now_ms [], sent.1))
                      refused in
                rw (idle, refused, send_response)
                  (subst (Refines w) (sym spec) record {
                    ring = IsRing-same waits last refl refl refl deferred.0;
                    entries =
                        queued_same waits last refl refl refl
                        ∙ deferred.1
                        ∙ ap (defer_to response now_ms) (counted.1 ∙ empty);
                    controller = refl;
                  })
          ]
    ]

-- What the loop does from a state on, as the induction knows it
abbrev Loops : {S : Type 0} → ℕ → ℕ → Node S → Type 0
Loops fuel now_ms w =
    Refines (process_loop fuel now_ms w)
      (retry_list now_ms w.control.tx_retry_not_before_ms (queued w.control) w.can)

-- The head is gone, expired or sent: the rest of the loop deals with the rest of the list.
without_head :
    {S : Type 0} (fuel now_ms : ℕ) (n : Node S) (stats : ControlStats) (can : Can)
    (e : DeferredEntry) (es : List DeferredEntry)
    → IsRing n.control
    → n.control.tx_queue_count ≤ suc fuel
    → queued n.control ≡ e ∷ es
    → ((w : Node S) → IsRing w.control → w.control.tx_queue_count ≤ fuel → Loops fuel now_ms w)
    → Refines
        (process_loop fuel now_ms
          (record n { control = pop_tx_queue (record n.control { stats = stats }); can = can }))
        (retry_list now_ms n.control.tx_retry_not_before_ms es can)
without_head {S = S} fuel now_ms n stats can e es h enough cons rest =
    let taken = pop-Taken n.control stats e es h cons in
    let w : Node S = record n {
      control = pop_tx_queue (record n.control { stats = stats });
      can = can;
    } in
    subst (λ q. Refines (process_loop fuel now_ms w) q)
      (ap₂ (λ t q. retry_list now_ms t q can) taken.retry taken.entries)
      (rest w taken.ring (omega (arith, taken.count)))

-- One round with something in the list
with_head :
    {S : Type 0} (fuel now_ms : ℕ) (n : Node S) (es : List DeferredEntry)
    → IsRing n.control
    → n.control.tx_queue_count ≤ suc fuel
    → (n.control.tx_queue_count == 0) ≡ false
    → queued n.control ≡ queue_at n.control 0 ∷ es
    → ((w : Node S) → IsRing w.control → w.control.tx_queue_count ≤ fuel → Loops fuel now_ms w)
    → Refines
        (process_loop (suc fuel) now_ms n)
        (retry_list now_ms n.control.tx_retry_not_before_ms (queue_at n.control 0 ∷ es) n.can)
unfolding process_loop process_round
with_head fuel now_ms n es h enough some_left cons rest =
    let c = n.control in
    let until = c.tx_retry_not_before_ms in
    let entry = queue_at c 0 in
    let sent = transmit_response entry.response n.can in
    elim (Bool-cases (ltb dedup_window_ms (sub32 now_ms entry.queued_ms))) [
      | inl old ↦
          let stats : ControlStats = record c.stats {
            responses_dropped = u32 (c.stats.responses_dropped + 1);
          } in
          rw (some_left, old, process_loop)
            (without_head fuel now_ms n stats n.can entry es h enough cons rest)
      | inr young ↦ elim (Bool-cases (deadline_reached now_ms until)) [
        | inr early ↦
            rw (some_left, young, early, process_loop)
              record { ring = h; entries = cons; controller = refl }
        | inl due ↦ elim (Bool-cases (is_link_ok sent.0)) [
          | inl gone ↦
              let stats : ControlStats = record c.stats {
                responses_queued = u32 (c.stats.responses_queued + 1);
              } in
              rw (some_left, young, due, gone, process_loop)
                (without_head fuel now_ms n stats sent.1 entry es h enough cons rest)
          | inr refused ↦
              let counted = count_refused-IsRing sent.0 c h in
              let d = count_refused sent.0 c in
              let last : Control = record d {
                tx_retry_not_before_ms = u32 (now_ms + tx_retry_delay_ms);
              } in
              rw (some_left, young, due, refused, process_loop)
                record {
                  ring = IsRing-same d last refl refl refl counted.0;
                  entries = queued_same d last refl refl refl ∙ counted.1 ∙ cons;
                  controller = refl;
                }
        ]
      ]
    ]

-- Enough rounds do what the list says; a round for every entry is enough.
process_loop-Refines :
    {S : Type 0} (fuel now_ms : ℕ) (n : Node S)
    → IsRing n.control
    → n.control.tx_queue_count ≤ fuel
    → Loops fuel now_ms n
unfolding process_loop process_round
process_loop-Refines zero now_ms n h enough =
    let none_left : n.control.tx_queue_count ≡ 0 = omega arith in
    let empty : queued n.control ≡ [] = ap (λ k. entries_from n.control k 0) none_left in
    subst (λ es. Refines n (retry_list now_ms n.control.tx_retry_not_before_ms es n.can))
      (sym empty) record { ring = h; entries = empty; controller = refl }
process_loop-Refines (suc fuel) now_ms n h enough =
    let c = n.control in
    let until = c.tx_retry_not_before_ms in
    elim (Bool-cases (c.tx_queue_count == 0)) [
      | inl idle ↦
          let none_left : c.tx_queue_count ≡ 0 = ground arith in
          let empty : queued c ≡ [] = ap (λ k. entries_from c k 0) none_left in
          rw (idle, process_loop)
            (subst (λ es. Refines n (retry_list now_ms until es n.can)) (sym empty)
              record { ring = h; entries = empty; controller = refl })
      | inr some_left ↦
          let m = c.tx_queue_count - 1 in
          let cons = queued-cons c m (ground arith) in
          subst (λ q. Refines (process_loop (suc fuel) now_ms n) (retry_list now_ms until q n.can))
            (sym cons)
            (with_head fuel now_ms n (entries_from c m 1) h enough some_left cons
              (λ w ring small. process_loop-Refines fuel now_ms w ring small))
    ]

-- `App_Control_Can_Process` does to the ring and the controller what the retries of the list do: it
-- drops the responses that are too old, sends the others in the order in which they came, and stops
-- at the first that the controller does not take.
pub process_responses-Refines :
    {S : Type 0} (now_ms : ℕ) (n : Node S)
    → IsRing n.control
    → Refines
        (process_responses now_ms n)
        (retry_list now_ms n.control.tx_retry_not_before_ms (queued n.control) n.can)
unfolding process_responses
process_responses-Refines now_ms n h =
    process_loop-Refines n.control.tx_queue_count now_ms n h (omega arith)
