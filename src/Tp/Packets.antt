-- ===== src/Tp/Packets.antt =====
-- MID/j1939_tp.c: the packets of a message carry exactly its bytes.
use teep_j1939_patent.Base.{
  ℕ, zero, suc, ◌+◌, ◌-◌, ◌*◌, ◌/◌, ◌%◌, ◌≤◌, ◌≡◌, refl, ◌∙◌, ap, ap₂, sym, arith,
}
use teep_j1939_patent.Base.{
  List, [], ◌∷◌, ◌++◌, take, drop, replicate, length, append_assoc, append-nil,
}
use teep_j1939_patent.Base.{
  length-take, length-drop, length-append, length-replicate, length-drop, length-append,
  length-replicate, ltb, if◌then◌else◌, min,
}
use teep_j1939_patent.Tp.{Session, dt_bytes, dt_data_bytes, tp_max_payload_bytes}

-- The number of TP.DT packets of a message.
abbrev pub packet_count : ℕ → ℕ
packet_count length = (length + 6) / 7

-- A session's message: 9 to 200 bytes, all of them in its buffer.
pub record HasMessage (s : Session) : Type 0 where
  pub long : 9 ≤ s.length
  pub short : s.length ≤ tp_max_payload_bytes
  pub stored : s.length ≤ length s.payload
  pub counted : s.packets ≡ packet_count s.length

-- The data bytes of packets 1 to `k`, in order.
unfoldable pub sent_bytes : Session → ℕ → List ℕ
sent_bytes s zero = []
sent_bytes s (suc k) = sent_bytes s k ++ dt_bytes (record s { next_packet = suc k })

take_nil : (n : ℕ) → take {A = ℕ} n [] ≡ []
take_nil zero = refl
take_nil (suc n) = refl

take-add : (m n : ℕ) (xs : List ℕ) → take (m + n) xs ≡ take m xs ++ take n (drop m xs)
take-add zero n xs = ap (λ k. take k xs) (omega arith)
take-add (suc m) n [] = let e : suc m + n ≡ suc (m + n) = omega arith in rw (e, take_nil n)
take-add (suc m) n (x ∷ xs) =
    let e : suc m + n ≡ suc (m + n) = omega arith in rw (e, take-add m n xs)

take_prefix : (xs ys : List ℕ) → take (length xs) (xs ++ ys) ≡ xs
take_prefix [] ys = refl
take_prefix (x ∷ xs) ys = ap (λ t. x ∷ t) (take_prefix xs ys)

-- The bytes of a packet by its place in the message: `count` of them from `offset` on, padded.
padded : Session → ℕ → ℕ → List ℕ
padded s offset count = take count (drop offset s.payload) ++ replicate (dt_data_bytes - count) 0xff

packet_bytes :
    (s : Session) (k : ℕ)
    → s.length ≤ tp_max_payload_bytes
    → 7 * k ≤ s.length
    → dt_bytes (record s { next_packet = suc k }) ≡ padded s (7 * k) (min 7 (s.length - 7 * k))
unfolding dt_bytes padded
packet_bytes s k short fits = ap₂ (padded s) offset count
  where
    offset : (suc k - 1) * 7 % 65536 ≡ 7 * k
    offset = omega arith

    remaining : (s.length + 65536 - (suc k - 1) * 7 % 65536) % 65536 ≡ s.length - 7 * k
    remaining = omega arith

    count :
        (if ltb ((s.length + 65536 - (suc k - 1) * 7 % 65536) % 65536) 7
          then (s.length + 65536 - (suc k - 1) * 7 % 65536) % 65536
          else 7)
        ≡ min 7 (s.length - 7 * k)
    count = ground (arith, remaining)

pub length-dt_bytes :
    (s : Session)
    → HasMessage s
    → (k : ℕ) → suc k ≤ s.packets
    → length (dt_bytes (record s { next_packet = suc k })) ≡ 7
unfolding padded
length-dt_bytes s m k h =
    ap length (packet_bytes s k m.short fits)
    ∙ length-append (take count (drop (7 * k) s.payload)) _
    ∙ omega (
      arith,
      m.stored,
      length-take count (drop (7 * k) s.payload),
      length-drop (7 * k) s.payload,
      length-replicate {A = ℕ} (7 - count) 0xff,
    )
  where
    count : ℕ
    count = min 7 (s.length - 7 * k)

    fits : 7 * k ≤ s.length
    fits = omega (arith, m.counted, m.long)

-- Up to the last full packet the message goes out in order, with no padding.
full_packets :
    (s : Session) (k : ℕ)
    → s.length ≤ tp_max_payload_bytes
    → 7 * k ≤ s.length
    → sent_bytes s k ≡ take (7 * k) s.payload
unfolding sent_bytes padded
full_packets s zero short fits = refl
full_packets s (suc k) short fits =
    let full : min 7 (s.length - 7 * k) ≡ 7 = omega arith in
    let next = packet_bytes s k short (omega arith) ∙ ap (padded s (7 * k)) full in
    let more : 7 * k + 7 ≡ 7 * suc k = omega arith in
    ap₂ ◌++◌ (full_packets s k short (omega arith)) (next ∙ append-nil _)
    ∙ sym (take-add (7 * k) 7 s.payload)
    ∙ ap (λ n. take n s.payload) more

-- All packets together carry the message and the padding of the last one.
all_packets :
    (s : Session)
    → HasMessage s
    → sent_bytes s s.packets ≡ take s.length s.payload ++ replicate (7 * s.packets - s.length) 0xff
unfolding sent_bytes padded
all_packets s m =
    ap (sent_bytes s) pos
    ∙ ap₂ ◌++◌ (full_packets s k m.short (omega arith)) (packet_bytes s k m.short (omega arith))
    ∙ sym (append_assoc (take (7 * k) s.payload) _ _)
    ∙ ap₂ ◌++◌ (sym (take-add (7 * k) last s.payload) ∙ ap (λ n. take n s.payload) total)
        (ap (λ n. replicate n 0xff) padding)
  where
    open m use {long, short, stored, counted}

    k : ℕ
    k = s.packets - 1

    last : ℕ
    last = min 7 (s.length - 7 * k)

    pos : s.packets ≡ suc k
    pos = omega arith

    total : 7 * k + last ≡ s.length
    total = omega arith

    padding : 7 - last ≡ 7 * s.packets - s.length
    padding = omega arith

-- A receiver that joins the data bytes of all TP.DT packets and cuts them to the announced length
-- has the message.
pub reassembly :
    (s : Session) → HasMessage s → take s.length (sent_bytes s s.packets) ≡ take s.length s.payload
reassembly s m =
    let whole : length (take s.length s.payload) ≡ s.length =
      omega (arith, length-take s.length s.payload, m.stored) in
    ap (take s.length) (all_packets s m)
    ∙ ap (λ n. take n (take s.length s.payload ++ replicate (7 * s.packets - s.length) 0xff))
        (sym whole)
    ∙ take_prefix (take s.length s.payload) (replicate (7 * s.packets - s.length) 0xff)
