-- ===== src/Control/Fifo.antt =====
-- APP/app_control_can.c: the ring of deferred responses is a first-in first-out list.
use teep_j1939_patent.Base.{
  ℕ, zero, suc, ◌+◌, ◌-◌, ◌%◌, ◌≤◌, ◌<◌, ◌≡◌, refl, ◌∙◌, ap, ap₂, sym, arith,
}
use teep_j1939_patent.Base.{
  List, [], ◌∷◌, ◌++◌, get_or, set, length, drop, length-set, get_or-set_self, get_or-set_ne,
}
use teep_j1939_patent.Base.{
  Bool, true, false, ◌||◌, leb, u32, ◌==◌, if◌then◌else◌, u8, Bool-cases, inl, inr,
}
use teep_j1939_patent.Control.Defs.{Control, DeferredEntry, no_deferred_entry, bytes_equal}
use teep_j1939_patent.Control.Defs.{control_queue_capacity}
use teep_j1939_patent.Control.Queue.{queue_at, pop_tx_queue, queue_contains_loop, tx_queue_contains}
use teep_j1939_patent.Control.Queue.{defer_response}

-- The ring is four entries, its head is one of them and it holds at most four.
pub record IsRing (c : Control) : Type 0 where
  pub sized : length c.tx_queue ≡ control_queue_capacity
  pub head : c.tx_queue_head < control_queue_capacity
  pub count : c.tx_queue_count ≤ control_queue_capacity

-- The abstract queue: `left` entries from the `i`-th on
abbrev pub entries_from : Control → ℕ → ℕ → List DeferredEntry
entries_from c zero i = []
entries_from c (suc left) i = queue_at c i ∷ entries_from c left (i + 1)

abbrev pub queued : Control → List DeferredEntry
queued c = entries_from c c.tx_queue_count 0

abbrev pub holds_response : List DeferredEntry → List ℕ → Bool
holds_response [] response = false
holds_response (e ∷ es) response = bytes_equal e.response response || holds_response es response

-- What a deferred response does to the list
abbrev pub defer_to : List ℕ → ℕ → List DeferredEntry → List DeferredEntry
defer_to response now_ms es =
    if holds_response es response || leb control_queue_capacity (length es)
    then es
    else es ++ record { response = response; queued_ms = now_ms } ∷ []

pub length-entries_from : (c : Control) (left i : ℕ) → length (entries_from c left i) ≡ left
length-entries_from c zero i = refl
length-entries_from c (suc left) i = ap suc (length-entries_from c left (i + 1))

contains_list :
    (c : Control) (response : List ℕ) (left i : ℕ)
    → queue_contains_loop c response left i ≡ holds_response (entries_from c left i) response
unfolding queue_contains_loop
contains_list c response zero i = refl
contains_list c response (suc left) i =
    let rest = contains_list c response left (i + 1) in
    elim (Bool-cases (bytes_equal (queue_at c i).response response)) [
      | inl same ↦ rw same refl
      | inr other ↦ rw other rest
    ]

-- Lists of the same entries, read from rings whose heads may differ
entries_ext :
    (c d : Control) (left i j : ℕ)
    → ((k : ℕ) → k < left → queue_at c (i + k) ≡ queue_at d (j + k))
    → entries_from c left i ≡ entries_from d left j
entries_ext c d zero i j h = refl
entries_ext c d (suc left) i j h =
    ap₂ ◌∷◌ (ap (queue_at c) (omega arith) ∙ h 0 (omega arith) ∙ ap (queue_at d) (omega arith)) (
      entries_ext c d left (i + 1) (j + 1) (λ k below.
        ap (queue_at c) (omega arith) ∙ h (suc k) (omega arith) ∙ ap (queue_at d) (omega arith)))

entries_snoc :
    (c : Control) (left i : ℕ)
    → entries_from c (suc left) i ≡ entries_from c left i ++ queue_at c (i + left) ∷ []
entries_snoc c zero i = ap (λ k. queue_at c k ∷ []) (omega arith)
entries_snoc c (suc left) i =
    ap (λ es. queue_at c i ∷ es)
      (entries_snoc c left (i + 1)
        ∙ ap (λ k. entries_from c left (i + 1) ++ queue_at c k ∷ []) (omega arith))

abbrev popped : Control → Control
popped c = record c {
  tx_queue_head = u8 ((c.tx_queue_head + 1) % control_queue_capacity);
  tx_queue_count = c.tx_queue_count - 1;
}

queued-popped :
    (c : Control) (n : ℕ) → c.tx_queue_count ≡ suc n → queued (popped c) ≡ drop 1 (queued c)
queued-popped c n e =
    let left : c.tx_queue_count - 1 ≡ n = omega arith in
    ap (λ k. entries_from (popped c) k 0) left
    ∙ entries_ext (popped c) c n 0 1
        (λ k below. ap (λ at. get_or c.tx_queue at no_deferred_entry) (omega arith))
    ∙ ap (λ k. drop 1 (entries_from c k 0)) (sym e)

-- `prv_pop_tx_queue` drops the head of the list and keeps the ring.
pub queued-pop :
    (c : Control)
    → IsRing c
    → IsRing (pop_tx_queue c) × (queued (pop_tx_queue c) ≡ drop 1 (queued c))
unfolding pop_tx_queue
queued-pop c h = elim (Bool-cases (c.tx_queue_count == 0)) [
  | inl none_left ↦
      let e : c.tx_queue_count ≡ 0 = ground arith in
      rw (none_left, pop_tx_queue)
        (h, ap (λ k. entries_from c k 0) e ∙ ap (λ k. drop 1 (entries_from c k 0)) (sym e))
  | inr some_left ↦
      let kept : IsRing (popped c) = record {
        sized = h.sized;
        head = omega arith;
        count = omega (arith, h.count);
      } in
      rw (some_left, pop_tx_queue) (kept, queued-popped c (c.tx_queue_count - 1) (ground arith))
]

abbrev tail_of : Control → ℕ
tail_of c = u8 ((c.tx_queue_head + c.tx_queue_count) % control_queue_capacity)

-- A ring with one more entry at its tail
abbrev pushed : Control → DeferredEntry → Control
pushed c e = record c {
  tx_queue = set c.tx_queue (tail_of c) e;
  tx_queue_count = u8 (c.tx_queue_count + 1);
}

queued-pushed :
    (c : Control) (e : DeferredEntry)
    → IsRing c
    → c.tx_queue_count < control_queue_capacity
    → queued (pushed c e) ≡ queued c ++ e ∷ []
queued-pushed c e h room =
    let n = c.tx_queue_count in
    let count : u8 (n + 1) ≡ suc n = omega arith in
    let old : entries_from (pushed c e) n 0 ≡ entries_from c n 0 =
      entries_ext (pushed c e) c n 0 0 (λ k below.
        get_or-set_ne c.tx_queue (tail_of c)
          (u8 ((c.tx_queue_head + (0 + k)) % control_queue_capacity)) e no_deferred_entry
          (λ same. omega (arith, h.head))) in
    let new : queue_at (pushed c e) (0 + n) ≡ e =
      ap (λ at. get_or (set c.tx_queue (tail_of c) e) at no_deferred_entry) (omega arith)
      ∙ get_or-set_self c.tx_queue (tail_of c) e no_deferred_entry (omega (arith, h.sized)) in
    ap (λ k. entries_from (pushed c e) k 0) count
    ∙ entries_snoc (pushed c e) n 0
    ∙ ap₂ (λ es last. es ++ last ∷ []) old new

-- The list is read from the ring, its head and its count only.
pub queued_same :
    (c d : Control)
    → d.tx_queue ≡ c.tx_queue
    → d.tx_queue_head ≡ c.tx_queue_head
    → d.tx_queue_count ≡ c.tx_queue_count
    → queued d ≡ queued c
queued_same c d ring head count =
    ap (λ k. entries_from d k 0) count
    ∙ entries_ext d c c.tx_queue_count 0 0 (λ k below.
      ap₂ (λ q first. get_or q (u8 ((first + (0 + k)) % control_queue_capacity)) no_deferred_entry)
        ring head)

pub IsRing-same :
    (c d : Control)
    → d.tx_queue ≡ c.tx_queue
    → d.tx_queue_head ≡ c.tx_queue_head
    → d.tx_queue_count ≡ c.tx_queue_count
    → IsRing c
    → IsRing d
IsRing-same c d ring head count h = record {
  sized = ap length ring ∙ h.sized;
  head = omega (arith, head, h.head);
  count = omega (arith, count, h.count);
}

-- `prv_defer_response` appends the response to the list, unless it waits already or the list is
-- full, and keeps the ring.
pub queued-defer :
    (response : List ℕ) (now_ms : ℕ) (c : Control)
    → IsRing c
    → IsRing (defer_response response now_ms c)
      × (queued (defer_response response now_ms c) ≡ defer_to response now_ms (queued c))
unfolding defer_response tx_queue_contains
queued-defer response now_ms c h =
    let same = contains_list c response c.tx_queue_count 0 in
    let size = length-entries_from c c.tx_queue_count 0 in
    elim (Bool-cases (queue_contains_loop c response c.tx_queue_count 0)) [
      | inl waits ↦
          let listed : holds_response (queued c) response ≡ true = sym same ∙ waits in
          rw (waits, listed, defer_response) (h, refl)
      | inr fresh ↦
          let unlisted : holds_response (queued c) response ≡ false = sym same ∙ fresh in
          elim (Bool-cases (leb control_queue_capacity c.tx_queue_count)) [
            | inl full ↦
                let d : Control = record c {
                  stats = record c.stats {
                    responses_dropped = u32 (c.stats.responses_dropped + 1);
                  };
                } in
                let kept : defer_to response now_ms (queued c) ≡ queued c =
                  rw (unlisted, size, full) refl in
                rw (fresh, full, defer_response)
                  (IsRing-same c d refl refl refl h, queued_same c d refl refl refl ∙ sym kept)
            | inr room ↦
                let entry : DeferredEntry = record { response = response; queued_ms = now_ms } in
                let p = pushed c entry in
                let d : Control = record p {
                  stats = record c.stats {
                    responses_deferred = u32 (c.stats.responses_deferred + 1);
                  };
                } in
                let below : c.tx_queue_count < control_queue_capacity = ground arith in
                let ring : IsRing p = record {
                  sized = length-set c.tx_queue (tail_of c) entry ∙ h.sized;
                  head = h.head;
                  count = omega arith;
                } in
                let grown : defer_to response now_ms (queued c) ≡ queued c ++ entry ∷ [] =
                  rw (unlisted, size, room) refl in
                rw (fresh, room, defer_response)
                  (
                    IsRing-same p d refl refl refl ring,
                    queued_same p d refl refl refl ∙ queued-pushed c entry h below ∙ sym grown,
                  )
          ]
    ]
