-- ===== src/Scheduler/Invariant.antt =====
-- MID/j1939_tx_scheduler.c: what holds of the scheduler's variables after any sequence of calls.
use teep_j1939_patent.Base.{ℕ, zero, suc, ◌+◌, ◌≤◌, ◌<◌, ◌≡◌, refl, sym, subst, ◌∙◌, arith}
use teep_j1939_patent.Base.{
  List, [], ◌∷◌, ◌++◌, length, take, drop, leb, set, length-set, All, All-set, true, false,
  Bool-cases, inl, inr, if◌then◌else◌,
}
use teep_j1939_patent.Catalog.{catalog_pgn_count}
use teep_j1939_patent.Codec.{initialize_payload}
use teep_j1939_patent.Tp.{Tp, bam_prepare, fill_payload, is_busy}
use teep_j1939_patent.Tp.Invariant.{
  IsValid, bam_prepare-IsValid, bam_start-IsValid, fill_payload-IsValid,
}
use teep_j1939_patent.ValueStore.Shape.{IsShaped, active-HasShape}
use teep_j1939_patent.Scheduler.Defs.{
  PgnEntry, TxEntry, Sched, TickResult, entry_at, catalog_pgn, tx_queue_capacity, sched_max_pgns,
  pgn_is_schedulable,
}
use teep_j1939_patent.Scheduler.Queue.{enqueue, insert_frame, insert_position}
use teep_j1939_patent.Scheduler.Tick.{start_tp_pgn, start_pending, schedule_due_pgn}
use teep_j1939_patent.Scheduler.Pack.{pack_pgn, tx_length}
use teep_j1939_patent.Scheduler.Order.{length-insert_frame}
use teep_j1939_patent.Scheduler.Lengths.{HasBlob, length-pack_pgn}

-- A queued frame of 8 bytes that belongs to one of `count` entries.
abbrev pub IsQueued : ℕ → TxEntry → Type 0
IsQueued count frame = (frame.pgn_slot < count) × (length frame.payload ≡ 8)

-- An entry of a PGN that transmits by itself.
abbrev pub IsEntry : PgnEntry → Type 0
IsEntry entry =
    (entry.catalog_pgn_index < catalog_pgn_count) × (pgn_is_schedulable (catalog_pgn entry) ≡ true)

-- The queue and the entries fit their arrays, every queued frame has 8 bytes and a slot that is in
-- use, every entry is a PGN of the catalog that transmits by itself, the transport
-- is valid, and the store's arrays have their sizes.
pub record IsSound (s : Sched) : Type 0 where
  pub bounded : length s.queue ≤ tx_queue_capacity
  pub few : length s.pgns ≤ sched_max_pgns
  pub frames : All (IsQueued (length s.pgns)) s.queue
  pub entries : All IsEntry s.pgns
  pub transport : IsValid s.tp
  pub shaped : IsShaped s.store

active_blob : (s : Sched) → IsSound s → HasBlob s.store
active_blob s v = omega (arith, (active-HasShape s.store v.shaped).blob)

pub entry_at-IsEntry :
    (pgns : List PgnEntry) (slot : ℕ)
    → All IsEntry pgns
    → slot < length pgns
    → IsEntry (entry_at pgns slot)
entry_at-IsEntry [] slot h lt = absurd (omega (arith, lt))
entry_at-IsEntry (e ∷ es) zero h lt = h.0
entry_at-IsEntry (e ∷ es) (suc slot) h lt = entry_at-IsEntry es slot h.1 (omega arith)

-- An entry is replaced by one of the same kind.
pub set_entry-IsSound :
    (s : Sched) (slot : ℕ) (entry : PgnEntry)
    → IsSound s
    → IsEntry entry
    → IsSound (record s { pgns = set s.pgns slot entry })
set_entry-IsSound s slot entry v e =
    let same = length-set s.pgns slot entry in
    record {
      bounded = v.bounded;
      few = omega (arith, same, v.few);
      frames = subst (λ n. All (IsQueued n) s.queue) (sym same) v.frames;
      entries = All-set IsEntry s.pgns slot entry v.entries e;
      transport = v.transport;
      shaped = v.shaped;
    }

pub with_tp-IsSound :
    (s : Sched) (tp : Tp) → IsSound s → IsValid tp → IsSound (record s { tp = tp })
with_tp-IsSound s tp v h = record {
  bounded = v.bounded;
  few = v.few;
  frames = v.frames;
  entries = v.entries;
  transport = h;
  shaped = v.shaped;
}

tx_length-le : (entry : PgnEntry) → IsEntry entry → tx_length (catalog_pgn entry) ≤ 200
unfolding tx_length pgn_is_schedulable
tx_length-le entry e = ground (arith, e)

-- The buffer after packing, and the session after its start.
filled-IsValid :
    (s : Sched) (slot n : ℕ)
    → IsSound s
    → slot < length s.pgns
    → let pgn = catalog_pgn (entry_at s.pgns slot) in
      let tp' = (bam_prepare s.tp n).1 in
      IsValid (fill_payload tp' (pack_pgn s.store pgn tp'.session.payload (tx_length pgn)).0)
filled-IsValid s slot n v lt =
    let entry = entry_at s.pgns slot in
    let valid = bam_prepare-IsValid n v.transport in
    let payload = (bam_prepare s.tp n).1.session.payload in
    let small = tx_length-le entry (entry_at-IsEntry s.pgns slot v.entries lt) in
    let kept =
      length-pack_pgn s.store (catalog_pgn entry) payload (tx_length (catalog_pgn entry))
        (active_blob s v) (omega (arith, small, valid.stored)) small in
    fill_payload-IsValid _ (kept ∙ valid.stored) valid

pub start_tp_pgn-IsSound :
    (s : Sched) (slot now_ms : ℕ)
    → IsSound s
    → slot < length s.pgns
    → IsSound (start_tp_pgn s slot now_ms)
unfolding start_tp_pgn
start_tp_pgn-IsSound s slot now_ms v lt =
    let entry = entry_at s.pgns slot in
    let e = entry_at-IsEntry s.pgns slot v.entries lt in
    let pgn = catalog_pgn entry in
    let n = tx_length pgn in
    let pending = set_entry-IsSound s slot (record entry { tp_pending = true }) v e in
    let taken = set_entry-IsSound s slot (record entry { tp_pending = false }) v e in
    let valid = filled-IsValid s slot n v lt in
    elim (Bool-cases (bam_prepare s.tp n).0) [
      | inr busy ↦ rw (busy, start_tp_pgn) pending
      | inl free ↦
          elim (Bool-cases (pack_pgn s.store pgn (bam_prepare s.tp n).1.session.payload n).1) [
            | inl some_ ↦
                rw (free, some_, start_tp_pgn)
                  (with_tp-IsSound _ _ taken
                    (bam_start-IsValid pgn.pgn pgn.source_address now_ms valid))
            | inr none_ ↦ rw (free, none_, start_tp_pgn) (with_tp-IsSound _ _ taken valid)
          ]
    ]

pub length-start_tp_pgn :
    (s : Sched) (slot now_ms : ℕ) → length (start_tp_pgn s slot now_ms).pgns ≡ length s.pgns
unfolding start_tp_pgn
length-start_tp_pgn s slot now_ms =
    let entry = entry_at s.pgns slot in
    ground (
      arith,
      length-set s.pgns slot (record entry { tp_pending = true }),
      length-set s.pgns slot (record entry { tp_pending = false }),
    )

-- A state of the loops: sound, with a number of entries that does not change.
abbrev pub Keeps : Sched → Sched → Type 0
Keeps s t = IsSound t × (length t.pgns ≡ length s.pgns)

start_if_pending :
    (s : Sched) (i now_ms : ℕ)
    → IsSound s
    → i < length s.pgns
    → Keeps s (if (entry_at s.pgns i).tp_pending then start_tp_pgn s i now_ms else s)
start_if_pending s i now_ms v lt = elim (Bool-cases (entry_at s.pgns i).tp_pending) [
  | inl e ↦ rw e (start_tp_pgn-IsSound s i now_ms v lt, length-start_tp_pgn s i now_ms)
  | inr e ↦ rw e (v, refl)
]

pub start_pending-Keeps :
    (left i : ℕ) (s : Sched) (now_ms : ℕ)
    → IsSound s
    → i + left ≤ length s.pgns
    → Keeps s (start_pending left i s now_ms)
unfolding start_pending
start_pending-Keeps zero i s now_ms v fits = (v, refl)
start_pending-Keeps (suc left) i s now_ms v fits =
    let next = if (entry_at s.pgns i).tp_pending then start_tp_pgn s i now_ms else s in
    let (sound, same) = start_if_pending s i now_ms v (omega arith) in
    let (later, count) = start_pending-Keeps left (i + 1) next now_ms sound (omega (arith, same)) in
    elim (Bool-cases (is_busy s.tp)) [
      | inl busy ↦ rw (busy, start_pending) (v, refl)
      | inr idle ↦ rw (idle, start_pending) (later, count ∙ same)
    ]

All-insert :
    (count pos : ℕ) (queue : List TxEntry) (frame : TxEntry)
    → All (IsQueued count) queue
    → IsQueued count frame
    → All (IsQueued count) (take pos queue ++ frame ∷ drop pos queue)
All-insert count zero queue frame h f = (f, h)
All-insert count (suc pos) [] frame h f = (f, tt)
All-insert count (suc pos) (a ∷ rest) frame h f = (h.0, All-insert count pos rest frame h.1 f)

pub All-drop :
    (count : ℕ) (queue : List TxEntry)
    → All (IsQueued count) queue
    → All (IsQueued count) (drop 1 queue)
All-drop count [] h = tt
All-drop count (a ∷ rest) h = h.1

pub enqueue-Keeps :
    (s : Sched) (frame : TxEntry)
    → IsSound s
    → IsQueued (length s.pgns) frame
    → Keeps s (enqueue s frame).1
unfolding enqueue insert_frame
enqueue-Keeps s frame v f = elim (Bool-cases (leb tx_queue_capacity (length s.queue))) [
  | inl full ↦ rw full (
    record {
      bounded = v.bounded;
      few = v.few;
      frames = v.frames;
      entries = v.entries;
      transport = v.transport;
      shaped = v.shaped;
    },
    refl,
  )
  | inr space ↦
      let pos = insert_position s.pgns frame s.queue (length s.queue) in
      rw space (
        record {
          bounded = ground (arith, space, length-insert_frame s.pgns frame s.queue);
          few = v.few;
          frames = All-insert (length s.pgns) pos s.queue frame v.frames f;
          entries = v.entries;
          transport = v.transport;
          shaped = v.shaped;
        },
        refl,
      )
]

pub schedule_due_pgn-Keeps :
    (s : Sched) (result : TickResult) (slot period_ms deadline_ms : ℕ)
    → IsSound s
    → slot < length s.pgns
    → Keeps s (schedule_due_pgn s result slot period_ms deadline_ms).0
unfolding schedule_due_pgn initialize_payload
schedule_due_pgn-Keeps s result slot period_ms deadline_ms v lt =
    let pgn = catalog_pgn (entry_at s.pgns slot) in
    let p = pack_pgn s.store pgn initialize_payload 8 in
    let eight =
      length-pack_pgn s.store pgn initialize_payload 8 (active_blob s v) (omega arith)
        (omega arith) in
    elim (Bool-cases p.1) [
      | inl some_ ↦ rw some_ (enqueue-Keeps s _ v (lt, eight))
      | inr none_ ↦ rw none_ (v, refl)
    ]
