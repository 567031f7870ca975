-- ===== src/Storage/SameWalk.antt =====
-- MID/j1939_profile_storage.c: `prv_parse` reads the image below its end and nothing else.
use teep_j1939_patent.Base.{ℕ, zero, suc, ◌+◌, ◌^◌, ◌≤◌, ◌<◌, ◌≡◌, refl, ◌∙◌, ap}
use teep_j1939_patent.Base.{arith, List, ltb, sub16}
use teep_j1939_patent.Base.{Bool-cases, inl, inr, ◌||◌, ◌==◌, u16}
use teep_j1939_patent.Storage.Bytes.{read_u16}
use teep_j1939_patent.Storage.Defs.{Result, failed, image_blob_capacity}
use teep_j1939_patent.Storage.Parse.{Cursor, Visitors, room, parse_key, parse_blob, parse_scalar}
use teep_j1939_patent.Storage.Parse.{parse_record, parse_records}
use teep_j1939_patent.Storage.Reads.{SameBelow, read_u16_same, read_u32_same, bytes_from_same}
use teep_j1939_patent.Storage.Walk.{Result-cases, room_exact, parse_key-inside, parse_record-inside}

-- Two images with the same bytes below `end` are walked the same way.
parse_key-same :
    (x y : List ℕ) (end : ℕ) (c : Cursor)
    → SameBelow end x y
    → c.offset ≤ end
    → end < 2 ^ 16
    → parse_key x end c ≡ parse_key y end c
unfolding parse_key
parse_key-same x y end c same inside small = elim (Bool-cases (ltb (room end c) 2)) [
  | inl short ↦ rw short refl
  | inr long ↦
      let e = read_u16_same end x y c.offset same (ground (arith, room_exact end c inside small)) in
      rw (long, e) refl
]

parse_scalar-same :
    {C : Type 0} (v : Visitors C) (x y : List ℕ) (end key : ℕ) (c : Cursor) (context : C)
    → SameBelow end x y
    → c.offset ≤ end
    → end < 2 ^ 16
    → parse_scalar v x end key c context ≡ parse_scalar v y end key c context
unfolding parse_scalar
parse_scalar-same v x y end key c context same inside small =
    elim (Bool-cases (ltb (room end c) 4)) [
      | inl short ↦ rw short refl
      | inr long ↦
          let e =
            read_u32_same end x y c.offset same (ground (arith, room_exact end c inside small)) in
          rw (long, e) refl
    ]

parse_blob-same :
    {C : Type 0} (v : Visitors C) (x y : List ℕ) (end key : ℕ) (c : Cursor) (context : C)
    → SameBelow end x y
    → c.offset ≤ end
    → end < 2 ^ 16
    → parse_blob v x end key c context ≡ parse_blob v y end key c context
unfolding parse_blob
parse_blob-same v x y end key c context same inside small = elim (Bool-cases (ltb (room end c) 2)) [
  | inl short ↦ rw short refl
  | inr long ↦
      let fits : c.offset + 2 ≤ end = ground (arith, room_exact end c inside small) in
      let len = read_u16 y c.offset in
      let at = u16 (c.offset + 2) in
      let e = read_u16_same end x y c.offset same fits in
      elim (Bool-cases
        ((len == 0) || ltb (image_blob_capacity c.previous_index) len || ltb (sub16 end at) len)) [
          | inl refused ↦ rw (long, e, refused) refl
          | inr accepted ↦
              let here : at + len ≤ end = ground arith in
              let bytes = bytes_from_same end x y at len same here in
              rw (long, e, accepted, bytes) refl
        ]
]

parse_record-same :
    {C : Type 0} (v : Visitors C) (x y : List ℕ) (end : ℕ) (c : Cursor) (context : C)
    → SameBelow end x y
    → c.offset ≤ end
    → end < 2 ^ 16
    → parse_record v x end c context ≡ parse_record v y end c context
unfolding parse_record
parse_record-same v x y end c context same inside small =
    let e = parse_key-same x y end c same inside small in
    elim (Result-cases (parse_key y end c)) [
      | inr (s, k) ↦ rw (e, k, parse_record) refl
      | inl ((key, keyed), k) ↦
          let first = parse_key-inside y end key c keyed inside small k in
          let blob = parse_blob-same v x y end key keyed context same first small in
          let scalar = parse_scalar-same v x y end key keyed context same first small in
          rw (e, k, blob, scalar, parse_record) refl
    ]

pub parse_records-same :
    {C : Type 0} (v : Visitors C) (x y : List ℕ) (end left : ℕ) (c : Cursor) (context : C)
    → SameBelow end x y
    → c.offset ≤ end
    → end < 2 ^ 16
    → parse_records v x end left c context ≡ parse_records v y end left c context
unfolding parse_records
parse_records-same v x y end zero c context same inside small = refl
parse_records-same {C = C} v x y end (suc left) c context same inside small =
    let e = parse_record-same v x y end c context same inside small in
    elim (Result-cases (parse_record v y end c context).0) [
      | inr (s, k) ↦ rw (e, k, parse_records) (ap (λ (r : Result Cursor × C). (failed s, r.1)) e)
      | inl (next, k) ↦
          let first = parse_record-inside v y end c next context inside small k in
          let after = (parse_record v y end c context).1 in
          let rest = parse_records-same v x y end left next after same first small in
          rw (e, k, parse_records)
            (ap (λ (r : Result Cursor × C). parse_records v x end left next r.1) e ∙ rest)
    ]
