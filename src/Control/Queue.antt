-- ===== src/Control/Queue.antt =====
-- APP/app_control_can.c: sending a response, the queue of deferred ones, and their retries.
use teep_j1939_patent.Base.{
  ℕ, zero, suc, ◌+◌, ◌-◌, ◌%◌, ◌^◌, List, get_or, set, Bool, true, false, not,
}
use teep_j1939_patent.Base.{ltb, leb, ◌==◌, if◌then◌else◌, u8, u32, sub32}
use teep_j1939_patent.HalCan.{Can}
use teep_j1939_patent.Link.{LinkStatus, link_ok, link_busy, send_to}
use teep_j1939_patent.RxRouter.{pgn_proprietary_a_control}
use teep_j1939_patent.Control.Defs.{Control, DeferredEntry, no_deferred_entry, Node, bytes_equal}
use teep_j1939_patent.Control.Defs.{control_priority, stm32_address, tester_address}
use teep_j1939_patent.Control.Defs.{control_queue_capacity, tx_retry_delay_ms, dedup_window_ms}

-- `prv_time_reached`
abbrev pub deadline_reached : ℕ → ℕ → Bool
deadline_reached now_ms deadline_ms = ltb (sub32 now_ms deadline_ms) (2 ^ 31)

-- `prv_transmit_response`
abbrev pub transmit_response : List ℕ → Can → LinkStatus × Can
transmit_response response can =
    send_to can pgn_proprietary_a_control response control_priority stm32_address tester_address

-- The entry that is the `i`-th from the head
abbrev pub queue_at : Control → ℕ → DeferredEntry
queue_at c i =
    get_or c.tx_queue (u8 ((c.tx_queue_head + i) % control_queue_capacity)) no_deferred_entry

-- `prv_pop_tx_queue`
unfoldable pub pop_tx_queue : Control → Control
pop_tx_queue c = if c.tx_queue_count == 0 then c else record c {
  tx_queue_head = u8 ((c.tx_queue_head + 1) % control_queue_capacity);
  tx_queue_count = c.tx_queue_count - 1;
}

-- The loop of `prv_tx_queue_contains`: `left` entries from the `i`-th on
unfoldable pub queue_contains_loop : Control → List ℕ → ℕ → ℕ → Bool
queue_contains_loop c response zero i = false
queue_contains_loop c response (suc left) i =
    let rest = queue_contains_loop c response left (i + 1) in
    if bytes_equal (queue_at c i).response response then true else rest

-- `prv_tx_queue_contains`
unfoldable pub tx_queue_contains : Control → List ℕ → Bool
tx_queue_contains c response = queue_contains_loop c response c.tx_queue_count 0

-- `prv_defer_response`
unfoldable pub defer_response : List ℕ → ℕ → Control → Control
defer_response response now_ms c =
    if tx_queue_contains c response
    then c
    else if leb control_queue_capacity c.tx_queue_count
    then record c {
      stats = record c.stats { responses_dropped = u32 (c.stats.responses_dropped + 1) };
    }
    else record c {
      tx_queue =
          set c.tx_queue (u8 ((c.tx_queue_head + c.tx_queue_count) % control_queue_capacity))
            record { response = response; queued_ms = now_ms };
      tx_queue_count = u8 (c.tx_queue_count + 1);
      stats = record c.stats { responses_deferred = u32 (c.stats.responses_deferred + 1) };
    }

abbrev pub count_queued : Control → Control
count_queued c = record c {
  stats = record c.stats { responses_queued = u32 (c.stats.responses_queued + 1) };
}

-- The counters of an answer that the link has not taken
unfoldable pub count_refused : LinkStatus → Control → Control
count_refused link_busy c = record c {
  stats = record c.stats { responses_busy = u32 (c.stats.responses_busy + 1) };
}
count_refused _ c = record c {
  stats = record c.stats { responses_failed = u32 (c.stats.responses_failed + 1) };
}

abbrev pub is_link_ok : LinkStatus → Bool
is_link_ok link_ok = true
is_link_ok _ = false

module _ {S : Type 0} where
  -- `prv_send_response`, at the time that it reads
  unfoldable pub send_response : List ℕ → ℕ → Node S → Node S
  send_response response now_ms n =
      let sent = transmit_response response n.can in
      let waiting = defer_response response now_ms (count_refused sent.0 n.control) in
      if ltb 0 n.control.tx_queue_count
      then record n { control = defer_response response now_ms n.control }
      else if is_link_ok sent.0
      then record n { control = count_queued n.control; can = sent.1 }
      else record n {
        control = record waiting { tx_retry_not_before_ms = u32 (now_ms + tx_retry_delay_ms) };
        can = sent.1;
      }

  -- One round of `App_Control_Can_Process`: whether the loop goes on, and the state after it
  unfoldable pub process_round : ℕ → Node S → Bool × Node S
  process_round now_ms n =
      let c = n.control in
      let entry = queue_at c 0 in
      let sent = transmit_response entry.response n.can in
      if c.tx_queue_count == 0
      then (false, n)
      else if ltb dedup_window_ms (sub32 now_ms entry.queued_ms)
      then (
        true,
        record n {
          control = pop_tx_queue (record c {
            stats = record c.stats { responses_dropped = u32 (c.stats.responses_dropped + 1) };
          });
        },
      )
      else if not (deadline_reached now_ms c.tx_retry_not_before_ms)
      then (false, n)
      else if is_link_ok sent.0
      then (true, record n { control = pop_tx_queue (count_queued c); can = sent.1 })
      else (
        false,
        record n {
          control = record (count_refused sent.0 c) {
            tx_retry_not_before_ms = u32 (now_ms + tx_retry_delay_ms);
          };
          can = sent.1;
        },
      )

  -- The loop of `App_Control_Can_Process`; every round that goes on takes an entry, so `fuel` rounds
  -- are enough for `fuel` entries.
  unfoldable pub process_loop : ℕ → ℕ → Node S → Node S
  process_loop zero now_ms n = n
  process_loop (suc fuel) now_ms n =
      let step = process_round now_ms n in
      let rest = process_loop fuel now_ms step.1 in if step.0 then rest else step.1

  -- `App_Control_Can_Process`
  unfoldable pub process_responses : ℕ → Node S → Node S
  process_responses now_ms n = process_loop n.control.tx_queue_count now_ms n
