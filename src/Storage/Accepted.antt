-- ===== src/Storage/Accepted.antt =====
-- MID/j1939_profile_storage.c: what an image that `prv_parse` accepts is like.
use teep_j1939_patent.Base.{ℕ, ◌+◌, ◌≤◌, ◌≡◌, refl, ◌∙◌, ap, ap₂}
use teep_j1939_patent.Base.{arith, List, false}
use teep_j1939_patent.Base.{Bool-cases, inl, inr, if◌then◌else◌, ◌!=◌, u16}
use teep_j1939_patent.Storage.Bytes.{read_u16, read_u32}
use teep_j1939_patent.Storage.Defs.{Result, ok, failed, storage_header_bytes, Info, invalid_image}
use teep_j1939_patent.Storage.Defs.{off_sequence, off_config_crc, off_bitrate_bps, off_signal_count}
use teep_j1939_patent.Storage.Defs.{
  off_scalar_count, off_flags, off_profile_id, off_blob_count, off_payload_length,
}
use teep_j1939_patent.Storage.Parse.{Cursor, Visitors}
use teep_j1939_patent.Storage.Parse.{
  parse_records, parse_end, image_length, counts_rejected, parse, walk_start, finish_walk, info_of,
}
use teep_j1939_patent.Storage.Reads.{SameBelow, read_u16_same, read_u32_same}
use teep_j1939_patent.Storage.Walk.{parse_records-Moves}
use teep_j1939_patent.Storage.SameWalk.{parse_records-same}

parse_end-same :
    (x y : List ℕ) (end : ℕ) (c : Cursor)
    → SameBelow storage_header_bytes x y
    → parse_end x end c ≡ parse_end y end c
unfolding parse_end
parse_end-same x y end c same =
    let u32_at : (at : ℕ) → at + 4 ≤ storage_header_bytes → read_u32 x at ≡ read_u32 y at =
      λ at room. read_u32_same storage_header_bytes x y at same room in
    let u16_at : (at : ℕ) → at + 2 ≤ storage_header_bytes → read_u16 x at ≡ read_u16 y at =
      λ at room. read_u16_same storage_header_bytes x y at same room in
    rw
      (
        u32_at off_sequence (omega arith),
        u32_at off_config_crc (omega arith),
        u32_at off_bitrate_bps (omega arith),
        u16_at off_signal_count (omega arith),
        u16_at off_scalar_count (omega arith),
        u16_at off_flags (omega arith),
        same off_profile_id (omega arith),
        same off_blob_count (omega arith),
      )
      refl

pub image_length-same :
    (x y : List ℕ) → SameBelow storage_header_bytes x y → image_length x ≡ image_length y
image_length-same x y same =
    ap (λ n. u16 (storage_header_bytes + n))
      (read_u16_same storage_header_bytes x y off_payload_length same (omega arith))

counts_rejected-same :
    (x y : List ℕ) → SameBelow storage_header_bytes x y → counts_rejected x ≡ counts_rejected y
unfolding counts_rejected
counts_rejected-same x y same =
    let u16_at : (at : ℕ) → at + 2 ≤ storage_header_bytes → read_u16 x at ≡ read_u16 y at =
      λ at room. read_u16_same storage_header_bytes x y at same room in
    rw
      (
        u16_at off_signal_count (omega arith),
        u16_at off_scalar_count (omega arith),
        same off_blob_count (omega arith),
      )
      refl

finish_walk-same :
    {C : Type 0} (x y : List ℕ) (walked : Result Cursor × C)
    → SameBelow storage_header_bytes x y
    → finish_walk x walked ≡ finish_walk y walked
unfolding finish_walk
finish_walk-same x y (failed s, after) same = refl
finish_walk-same {C = C} x y (ok c, after) same =
    ap (λ (r : Result Info). (r, after))
      (parse_end-same x y (image_length x) c same
        ∙ ap (λ end. parse_end y end c) (image_length-same x y same))

finish_walk-end :
    {C : Type 0} (x : List ℕ) (walked : Result Cursor × C) (info : Info)
    → (finish_walk x walked).0 ≡ ok info
    → (c : Cursor) × ((walked.0 ≡ ok c) × (parse_end x (image_length x) c ≡ ok info))
unfolding finish_walk
finish_walk-end x (failed s, after) info e = absurd (ground arith)
finish_walk-end x (ok c, after) info e = (c, (refl, e))

parse_end-offset :
    (x : List ℕ) (end : ℕ) (c : Cursor) (info : Info)
    → parse_end x end c ≡ ok info
    → (c.offset ≡ end) × (info ≡ info_of x)
unfolding parse_end
parse_end-offset x end c info e = elim (Bool-cases (c.offset != end)) [
  | inl bad ↦ absurd (grind arith)
  | inr good ↦ (ground arith, grind arith)
]

counts-small : (x : List ℕ) → counts_rejected x ≡ false → read_u16 x off_signal_count ≤ 179
unfolding counts_rejected
counts-small x e = ground arith

-- What `prv_parse` accepts: the info that it writes is what the header says, and the image is at
-- least as long as its header, though `(uint16_t)` makes the sum of a large payload length short.
pub parse-accepted :
    {C : Type 0} (v : Visitors C) (x : List ℕ) (context : C) (info : Info)
    → (parse v x context).0 ≡ ok info
    → (info ≡ info_of x) × (storage_header_bytes ≤ image_length x)
unfolding parse
parse-accepted v x context info e = elim (Bool-cases (counts_rejected x)) [
  | inl bad ↦ absurd (grind arith)
  | inr good ↦
      let count = read_u16 x off_signal_count in
      let walk = parse_records v x (image_length x) count walk_start context in
      let finished : (finish_walk x walk).0 ≡ ok info = rw (good, parse) at e in
      let (c, (k, last)) = finish_walk-end x walk info finished in
      let reached = parse_end-offset x (image_length x) c info last in
      let small = counts-small x good in
      let forward =
        parse_records-Moves v x (image_length x) count walk_start c context (omega (arith, small))
          k in
      (reached.1, omega (arith, reached.0, forward))
]

pub parse-same :
    {C : Type 0} (v : Visitors C) (x y : List ℕ) (context : C)
    → SameBelow (image_length x) x y
    → storage_header_bytes ≤ image_length x
    → parse v x context ≡ parse v y context
unfolding parse
parse-same {C = C} v x y context same long =
    let header : SameBelow storage_header_bytes x y = λ j below. same j (omega arith) in
    let end = image_length-same x y header in
    let counts = counts_rejected-same x y header in
    let signals = read_u16_same storage_header_bytes x y off_signal_count header (omega arith) in
    let walk =
      parse_records-same v x y (image_length x) (read_u16 x off_signal_count) walk_start context
        same long (omega arith) in
    let walks : parse_records v x (image_length x) (read_u16 x off_signal_count) walk_start context
        ≡ parse_records v y (image_length y) (read_u16 y off_signal_count) walk_start context =
      walk ∙ ap₂ (λ e n. parse_records v y e n walk_start context) end signals in
    ap₂ (λ b (r : Result Info × C). if b then (failed invalid_image, context) else r) counts
      (finish_walk-same x y _ header ∙ ap (finish_walk y) walks)
