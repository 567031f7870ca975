-- ===== src/Tp/Pace.antt =====
-- MID/j1939_tp.c: the gap between two packets, and the end of a session on a dead bus.
use teep_j1939_patent.Base.{
  ℕ, zero, suc, ◌+◌, ◌^◌, ◌<◌, ◌≤◌, subst, ◌≡◌, ◌≢◌, refl, ap, ◌∙◌, ◌⊎◌, inl, inr, arith,
}
use teep_j1939_patent.Base.{[], u32, sub32, false}
use teep_j1939_patent.HalCan.{Can, send_ext}
use teep_j1939_patent.Link.{LinkStatus, link_ok, send, send_to, link_status}
use teep_j1939_patent.Tp.{Tp, Session, tp_sending, bam_packet_gap_ms}
use teep_j1939_patent.Tp.{process, after_send, send_packet, is_busy, cancel, bam_abort_late_ms}
use teep_j1939_patent.Tp.Broadcast.{drive}

-- The session is over, or its next packet is due 50 ms after `now_ms`.
IsQuiet : Tp → ℕ → Type 0
IsQuiet t now_ms = (is_busy t ≡ false) ⊎ (t.session.next_due_ms ≡ u32 (now_ms + bam_packet_gap_ms))

quiet_until :
    (t : Tp) (now_ms later_ms : ℕ) (can : Can)
    → now_ms < 2 ^ 32
    → later_ms < 2 ^ 32
    → sub32 later_ms now_ms < bam_packet_gap_ms
    → IsQuiet t now_ms
    → process t later_ms can ≡ (t, can)
unfolding process IsQuiet
quiet_until t now_ms later_ms can n l soon (inl idle) = ground (arith, idle)
quiet_until t now_ms later_ms can n l soon (inr due) = ground (arith, due)

after_send-IsQuiet :
    (t : Tp) (status : LinkStatus) (now_ms : ℕ)
    → t.stats.frames_sent < 2 ^ 32
    → (after_send t status now_ms).stats.frames_sent ≢ t.stats.frames_sent
    → IsQuiet (after_send t status now_ms) now_ms
unfolding after_send is_busy IsQuiet
after_send-IsQuiet t status now_ms f moved = ground arith

process-IsQuiet :
    (t : Tp) (now_ms : ℕ) (can : Can)
    → t.stats.frames_sent < 2 ^ 32
    → (process t now_ms can).0.stats.frames_sent ≢ t.stats.frames_sent
    → IsQuiet (process t now_ms can).0 now_ms
unfolding process cancel
process-IsQuiet t now_ms can f moved =
    ground (arith, after_send-IsQuiet t (send_packet t.session can).0 now_ms f)

-- A call that put a frame on the bus at `now_ms` is followed by no frame and no change for the
-- next 50 ms, whenever and with whatever controller `J1939_Tp_Process` is called again.
pub process-gap :
    (t : Tp) (now_ms later_ms : ℕ) (can can' : Can)
    → now_ms < 2 ^ 32
    → later_ms < 2 ^ 32
    → t.stats.frames_sent < 2 ^ 32
    → (process t now_ms can).0.stats.frames_sent ≢ t.stats.frames_sent
    → sub32 later_ms now_ms < bam_packet_gap_ms
    → process (process t now_ms can).0 later_ms can' ≡ ((process t now_ms can).0, can')
process-gap t now_ms later_ms can can' n l f moved soon =
    quiet_until (process t now_ms can).0 now_ms later_ms can' n l soon
      (process-IsQuiet t now_ms can f moved)

dead_bus :
    (s : Session) (can : Can)
    → can.mailbox_free ≡ []
    → ((send_packet s can).0 ≢ link_ok) × ((send_packet s can).1 ≡ can)
unfolding send_packet send send_to send_ext link_status
dead_bus s can dead = ground (arith, dead)

-- A session `late` ms after its packet's slot, with every earlier attempt refused.
record IsLate (t : Tp) (late : ℕ) : Type 0 where
  sending : t.session.state ≡ tp_sending
  slot : t.session.slot_ms < 2 ^ 32
  due : t.session.next_due_ms ≡ u32 (t.session.slot_ms + late)

refused :
    (t : Tp) (can : Can) (late : ℕ)
    → can.mailbox_free ≡ []
    → IsLate t late
    → late < bam_abort_late_ms
    → let r = process t t.session.next_due_ms can in
      (r.1 ≡ can)
      × IsLate r.0 (suc late)
      × (r.0.stats ≡ record t.stats { busy = u32 (t.stats.busy + 1) })
      × (r.0.session.slot_ms ≡ t.session.slot_ms)
unfolding process is_busy after_send
refused t can late dead l more =
    let (bad, same) = dead_bus t.session can dead in
    (
      ground (arith, l.sending, l.due, l.slot, bad, same),
      record {
        sending = ground (arith, l.sending, l.due, l.slot, bad, same);
        slot = ground (arith, l.sending, l.due, l.slot, bad, same);
        due = ground (arith, l.sending, l.due, l.slot, bad, same);
      },
      ground (arith, l.sending, l.due, l.slot, bad, same),
      ground (arith, l.sending, l.due, l.slot, bad, same),
    )

too_late :
    (t : Tp) (can : Can) (late : ℕ)
    → IsLate t late
    → late ≡ bam_abort_late_ms
    → process t t.session.next_due_ms can ≡ (cancel t, can)
unfolding process is_busy
too_late t can late l more = ground (arith, l.sending, l.due, l.slot)

-- What an aborted session leaves.
pub record IsAborted (t : Tp) (can : Can) (r : Tp × Can) : Type 0 where
  pub idle : is_busy r.0 ≡ false
  pub counted : r.0.stats.aborted ≡ u32 (t.stats.aborted + 1)
  pub nothing_sent : r.0.stats.frames_sent ≡ t.stats.frames_sent
  pub same_bus : r.1 ≡ can

cancelled : (t : Tp) (can : Can) → t.session.state ≡ tp_sending → IsAborted t can (cancel t, can)
unfolding cancel is_busy
cancelled t can h = record {
  idle = refl;
  counted = ground (arith, h);
  nothing_sent = ground (arith, h);
  same_bus = refl;
}

gives_up_from :
    (n : ℕ) (t : Tp) (can : Can) (late : ℕ)
    → n + late ≡ bam_abort_late_ms
    → can.mailbox_free ≡ []
    → IsLate t late
    → IsAborted t can (drive (suc n) t can)
unfolding drive
gives_up_from zero t can late rest dead l =
    rw (too_late t can late l (omega arith)) (cancelled t can l.sending)
gives_up_from (suc n) t can late rest dead l =
    let due = t.session.next_due_ms in
    let t' = (process t due can).0 in
    let (same, later, stats, _) = refused t can late dead l (omega arith) in
    let ih =
      gives_up_from n t' (process t due can).1 (suc late) (omega arith)
        (ap (λ c. c.mailbox_free) same ∙ dead) later in
    record {
      idle = ih.idle;
      counted = ih.counted ∙ ap (λ st. u32 (st.aborted + 1)) stats;
      nothing_sent = ih.nothing_sent ∙ ap (λ st. st.frames_sent) stats;
      same_bus = ih.same_bus ∙ same;
    }

-- What `tries` refused attempts leave of a session: it is sending, its next attempt is as many
-- milliseconds after the slot, and nothing was sent and nothing aborted.
pub record IsWaiting (t : Tp) (can : Can) (tries : ℕ) (r : Tp × Can) : Type 0 where
  pub sending : r.0.session.state ≡ tp_sending
  pub due : r.0.session.next_due_ms ≡ u32 (t.session.slot_ms + tries)
  pub not_aborted : r.0.stats.aborted ≡ t.stats.aborted
  pub nothing_sent : r.0.stats.frames_sent ≡ t.stats.frames_sent
  pub same_bus : r.1 ≡ can

waits_from :
    (n : ℕ) (t : Tp) (can : Can) (late : ℕ)
    → n + late ≤ bam_abort_late_ms
    → can.mailbox_free ≡ []
    → IsLate t late
    → IsWaiting t can (n + late) (drive n t can)
unfolding drive
waits_from zero t can late rest dead l = record {
  sending = l.sending;
  due = omega (arith, l.due);
  not_aborted = refl;
  nothing_sent = refl;
  same_bus = refl;
}
waits_from (suc n) t can late rest dead l =
    let due = t.session.next_due_ms in
    let (same, later, stats, slot) = refused t can late dead l (omega arith) in
    let ih =
      waits_from n (process t due can).0 (process t due can).1 (suc late) (omega arith)
        (ap (λ c. c.mailbox_free) same ∙ dead) later in
    record {
      sending = ih.sending;
      due = ih.due ∙ omega (arith, slot);
      not_aborted = ih.not_aborted ∙ ap (λ st. st.aborted) stats;
      nothing_sent = ih.nothing_sent ∙ ap (λ st. st.frames_sent) stats;
      same_bus = ih.same_bus ∙ same;
    }

-- A session whose next packet is due, on a controller that never has a free mailbox, processed
-- whenever the next attempt is due: after each of the first 750 calls it is still sending, and its
-- next attempt is one more millisecond late; the 751st call, 750 ms late, aborts it, so that it is
-- idle and counted once as aborted. Nothing was sent.
pub drive-gives_up :
    (t : Tp) (can : Can) (tries : ℕ)
    → tries ≤ bam_abort_late_ms
    → t.session.state ≡ tp_sending
    → t.session.slot_ms ≡ t.session.next_due_ms
    → t.session.next_due_ms < 2 ^ 32
    → can.mailbox_free ≡ []
    → IsWaiting t can tries (drive tries t can)
      × IsAborted t can (drive (suc bam_abort_late_ms) t can)
drive-gives_up t can tries early sending slot word dead =
    let l : IsLate t 0 = record { sending = sending; slot = omega arith; due = omega arith } in
    (
      subst (λ k. IsWaiting t can k (drive tries t can)) (omega arith)
          (waits_from tries t can 0 (omega arith) dead l),
      gives_up_from 750 t can 0 refl dead l,
    )
