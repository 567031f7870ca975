-- ===== src/Tp/Invariant.antt =====
-- MID/j1939_tp.c: what holds of the session and the counters after any sequence of calls.
use teep_j1939_patent.Base.{ℕ, ◌+◌, ◌%◌, ◌^◌, ◌≤◌, ◌≡◌, ◌≢◌, refl, arith}
use teep_j1939_patent.Base.{List, [], ◌∷◌, length, length-replicate}
use teep_j1939_patent.HalCan.{Can}
use teep_j1939_patent.Link.{LinkStatus}
use teep_j1939_patent.Tp.{Tp, TpState, tp_idle, tp_sending}
use teep_j1939_patent.Tp.{cancel, bam_prepare, bam_start, fill_payload, process, after_send}
use teep_j1939_patent.Tp.{tp_init, tp_max_payload_bytes, send_packet, is_busy}
use teep_j1939_patent.Tp.Packets.{packet_count}

-- A call of the transmitter; the caller writes the buffer only through the pointer that
-- `J1939_Tp_Bam_Prepare` gave, so the buffer keeps its size.
pub data TpOp : Type 0 where
  op_cancel : TpOp
  op_prepare : ℕ → TpOp
  op_fill : (bytes : List ℕ) → length bytes ≡ tp_max_payload_bytes → TpOp
  op_start : (pgn source_address now_ms : ℕ) → TpOp
  op_process : (now_ms : ℕ) → Can → TpOp

unfoldable pub tp_apply : TpOp → Tp → Tp
tp_apply op_cancel t = cancel t
tp_apply (op_prepare n) t = (bam_prepare t n).1
tp_apply (op_fill bytes h) t = fill_payload t bytes
tp_apply (op_start pgn source_address now_ms) t = (bam_start t pgn source_address now_ms).1
tp_apply (op_process now_ms can) t = (process t now_ms can).0

unfoldable pub tp_run : List TpOp → Tp → Tp
tp_run [] t = t
tp_run (op ∷ ops) t = tp_run ops (tp_apply op t)

-- How many sessions are under way: 0 or 1.
unfoldable pub under_way : TpState → ℕ
under_way tp_sending = 1
under_way _ = 0

-- The buffer has its size, a reserved one has a length that BAM can carry, a session that sends
-- has its packets counted and its next packet among them, and every started session is completed,
-- aborted or under way.
pub record IsValid (t : Tp) : Type 0 where
  pub stored : length t.session.payload ≡ tp_max_payload_bytes
  pub long : t.session.state ≢ tp_idle → 9 ≤ t.session.length
  pub short : t.session.state ≢ tp_idle → t.session.length ≤ tp_max_payload_bytes
  pub counted : t.session.state ≡ tp_sending → t.session.packets ≡ packet_count t.session.length
  pub next : t.session.state ≡ tp_sending → t.session.next_packet ≤ t.session.packets
  pub balanced :
      t.stats.started % 2 ^ 32
      ≡ (t.stats.completed + t.stats.aborted + under_way t.session.state) % 2 ^ 32

pub tp_init-IsValid : IsValid tp_init
unfolding tp_init under_way
tp_init-IsValid = record {
  stored = length-replicate {A = ℕ} 200 0;
  long = λ h. ground arith;
  short = λ h. ground arith;
  counted = λ h. ground arith;
  next = λ h. ground arith;
  balanced = refl;
}

pub cancel-IsValid : {t : Tp} → IsValid t → IsValid (cancel t)
unfolding cancel under_way
cancel-IsValid {t} v = record {
  stored = v.stored;
  long = λ h. ground arith;
  short = λ h. ground arith;
  counted = λ h. ground arith;
  next = λ h. ground arith;
  balanced = ground (arith, v.balanced);
}

pub bam_prepare-IsValid : {t : Tp} (n : ℕ) → IsValid t → IsValid (bam_prepare t n).1
unfolding bam_prepare under_way is_busy
bam_prepare-IsValid {t} n v = record {
  stored = ground (arith, v.stored, length-replicate {A = ℕ} 200 0xff);
  long = λ h. ground (arith, v.long);
  short = λ h. ground (arith, v.short);
  counted = λ h. ground (arith, v.counted);
  next = λ h. ground (arith, v.next);
  balanced = ground (arith, v.balanced);
}

pub bam_start-IsValid :
    {t : Tp} (pgn source_address now_ms : ℕ)
    → IsValid t
    → IsValid (bam_start t pgn source_address now_ms).1
unfolding bam_start under_way
bam_start-IsValid {t} pgn source_address now_ms v = record {
  stored = ground (arith, v.stored);
  long = λ h. ground (arith, v.long);
  short = λ h. ground (arith, v.short);
  counted = λ h. ground (arith, v.counted, v.long, v.short);
  next = λ h. ground (arith, v.next);
  balanced = ground (arith, v.balanced);
}

after_send-IsValid :
    {t : Tp} (status : LinkStatus) (now_ms : ℕ)
    → t.session.state ≡ tp_sending
    → IsValid t
    → IsValid (after_send t status now_ms)
unfolding after_send under_way
after_send-IsValid {t} status now_ms sending v = record {
  stored = ground (arith, v.stored);
  long = λ h. ground (arith, v.long);
  short = λ h. ground (arith, v.short);
  counted = λ h. ground (arith, v.counted);
  next = λ h. ground (arith, v.next, v.counted, v.short);
  balanced = ground (arith, v.balanced);
}

pub process-IsValid :
    {t : Tp} (now_ms : ℕ) (can : Can) → IsValid t → IsValid (process t now_ms can).0
unfolding process is_busy
process-IsValid {t} now_ms can v =
    ground
      (arith, cancel-IsValid v, after_send-IsValid {t = t} (send_packet t.session can).0 now_ms)

pub fill_payload-IsValid :
    {t : Tp} (bytes : List ℕ)
    → length bytes ≡ tp_max_payload_bytes
    → IsValid t
    → IsValid (fill_payload t bytes)
fill_payload-IsValid bytes h v = record {
  stored = h;
  long = v.long;
  short = v.short;
  counted = v.counted;
  next = v.next;
  balanced = v.balanced;
}

tp_apply-IsValid : (op : TpOp) {t : Tp} → IsValid t → IsValid (tp_apply op t)
unfolding tp_apply
tp_apply-IsValid op_cancel v = cancel-IsValid v
tp_apply-IsValid (op_prepare n) v = bam_prepare-IsValid n v
tp_apply-IsValid (op_fill bytes h) v = fill_payload-IsValid bytes h v
tp_apply-IsValid (op_start pgn source_address now_ms) v =
    bam_start-IsValid pgn source_address now_ms v
tp_apply-IsValid (op_process now_ms can) v = process-IsValid now_ms can v

tp_run-IsValid : (ops : List TpOp) {t : Tp} → IsValid t → IsValid (tp_run ops t)
unfolding tp_run
tp_run-IsValid [] v = v
tp_run-IsValid (op ∷ ops) v = tp_run-IsValid ops (tp_apply-IsValid op v)

-- After any calls from `J1939_Tp_Init`, with any controller and at any times, the buffer has its
-- 200 bytes, a prepared or sending session has a length of 9 to 200, a sending one has ⌈length / 7⌉
-- packets and its next packet among them, and the sessions started are, modulo 2^32, those
-- completed, those aborted and the one under way.
pub tp_run-init-IsValid : (ops : List TpOp) → IsValid (tp_run ops tp_init)
tp_run-init-IsValid ops = tp_run-IsValid ops tp_init-IsValid
