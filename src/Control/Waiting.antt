-- ===== src/Control/Waiting.antt =====
-- APP/app_control_can.c: the deferred responses as a list, oldest first.
use teep_j1939_patent.Base.{ℕ, suc, ◌-◌, ◌≡◌, refl, ◌∙◌, ap, arith}
use teep_j1939_patent.Base.{List, [], ◌∷◌, drop, not, ltb, if◌then◌else◌, sub32}
use teep_j1939_patent.HalCan.{Can}
use teep_j1939_patent.Control.Defs.{Control, ControlStats, DeferredEntry, Node, dedup_window_ms}
use teep_j1939_patent.Control.Queue.{deadline_reached, transmit_response, queue_at, pop_tx_queue}
use teep_j1939_patent.Control.Queue.{is_link_ok}
use teep_j1939_patent.Control.Fifo.{IsRing, queued, entries_from, defer_to, queued-pop}
use teep_j1939_patent.Control.Fifo.{queued_same, IsRing-same}

-- The retries on a list, oldest first: an entry older than the window is dropped, another is sent,
-- and the first that cannot be sent stays at the front of what is left.
abbrev pub retry_list : ℕ → ℕ → List DeferredEntry → Can → List DeferredEntry × Can
retry_list now_ms not_before_ms [] can = ([], can)
retry_list now_ms not_before_ms (e ∷ es) can =
    let sent = transmit_response e.response can in
    let without = retry_list now_ms not_before_ms es can in
    let after = retry_list now_ms not_before_ms es sent.1 in
    if ltb dedup_window_ms (sub32 now_ms e.queued_ms)
    then without
    else if not (deadline_reached now_ms not_before_ms)
    then (e ∷ es, can)
    else if is_link_ok sent.0
    then after
    else (e ∷ es, sent.1)

-- A response on a list: it is sent at once where nothing waits, and waits otherwise.
abbrev pub send_list : List ℕ → ℕ → List DeferredEntry → Can → List DeferredEntry × Can
send_list response now_ms (e ∷ es) can = (defer_to response now_ms (e ∷ es), can)
send_list response now_ms [] can =
    let sent = transmit_response response can in
    if is_link_ok sent.0 then ([], sent.1) else (defer_to response now_ms [], sent.1)

-- The ring and the controller are as the list says.
pub record Refines {S : Type 0} (n : Node S) (abstract_ : List DeferredEntry × Can) : Type 0 where
  pub ring : IsRing n.control
  pub entries : queued n.control ≡ abstract_.0
  pub controller : n.can ≡ abstract_.1

pub queued-cons :
    (c : Control) (m : ℕ) → c.tx_queue_count ≡ suc m → queued c ≡ queue_at c 0 ∷ entries_from c m 1
queued-cons c m e = ap (λ k. entries_from c k 0) e

-- What is left when the head has been taken, its counters aside
pub record Taken (c d : Control) (es : List DeferredEntry) : Type 0 where
  pub ring : IsRing d
  pub entries : queued d ≡ es
  pub retry : d.tx_retry_not_before_ms ≡ c.tx_retry_not_before_ms
  pub count : d.tx_queue_count ≡ c.tx_queue_count - 1

pub pop-Taken :
    (c : Control) (stats : ControlStats) (e : DeferredEntry) (es : List DeferredEntry)
    → IsRing c
    → queued c ≡ e ∷ es
    → Taken c (pop_tx_queue (record c { stats = stats })) es
unfolding pop_tx_queue
pop-Taken c stats e es h cons =
    let d : Control = record c { stats = stats } in
    let both = queued-pop d (IsRing-same c d refl refl refl h) in
    record {
      ring = both.0;
      entries = both.1 ∙ ap (drop 1) (queued_same c d refl refl refl ∙ cons);
      retry = ground arith;
      count = ground arith;
    }
