-- ===== src/Storage/Walk.antt =====
-- MID/j1939_profile_storage.c: the walk of `prv_parse` stays inside the image it was given.
use teep_j1939_patent.Base.{ℕ, zero, suc, ◌+◌, ◌-◌, ◌*◌, ◌^◌, ◌≤◌, ◌<◌, ◌≡◌, refl}
use teep_j1939_patent.Base.{arith, List}
use teep_j1939_patent.Base.{Bool-cases, inl, inr, ◌⊎◌}
use teep_j1939_patent.Catalog.{signal_at, is_blob_signal}
use teep_j1939_patent.Storage.Defs.{Result, ok, failed, StorageStatus, image_blob_capacity}
use teep_j1939_patent.Storage.Parse.{Cursor, Visitors, room, parse_key, parse_blob, parse_scalar}
use teep_j1939_patent.Storage.Parse.{parse_record, parse_records}

-- The most that one record takes: a key, a length and a blob
abbrev pub record_max : ℕ
record_max = 204

capacity_bound : (i : ℕ) → image_blob_capacity i ≤ 200
unfolding image_blob_capacity
capacity_bound i = ground arith

-- The cursor moves forward by at most `most`.
abbrev pub Moves : Cursor → Cursor → ℕ → Type 0
Moves c d most = (c.offset ≤ d.offset) × (d.offset ≤ c.offset + most)

parse_key-Moves :
    (image : List ℕ) (end key : ℕ) (c d : Cursor)
    → c.offset + 2 < 2 ^ 16
    → parse_key image end c ≡ ok (key, d)
    → d.offset ≡ c.offset + 2
unfolding parse_key
parse_key-Moves image end key c d small e = grind arith

parse_scalar-Moves :
    {C : Type 0} (v : Visitors C) (image : List ℕ) (end key : ℕ) (c d : Cursor) (context : C)
    → c.offset + 4 < 2 ^ 16
    → (parse_scalar v image end key c context).0 ≡ ok d
    → d.offset ≡ c.offset + 4
unfolding parse_scalar
parse_scalar-Moves v image end key c d context small e = grind arith

parse_blob-Moves :
    {C : Type 0} (v : Visitors C) (image : List ℕ) (end key : ℕ) (c d : Cursor) (context : C)
    → c.offset + 202 < 2 ^ 16
    → (parse_blob v image end key c context).0 ≡ ok d
    → Moves c d 202
unfolding parse_blob
parse_blob-Moves v image end key c d context small e =
    grind (arith, capacity_bound c.previous_index)

pub Result-cases {ℓ} :
    {A : Type ℓ} (r : Result A) → ((a : A) × (r ≡ ok a)) ⊎ ((s : StorageStatus) × (r ≡ failed s))
Result-cases (ok a) = inl (a, refl)
Result-cases (failed s) = inr (s, refl)

parse_record-Moves :
    {C : Type 0} (v : Visitors C) (image : List ℕ) (end : ℕ) (c d : Cursor) (context : C)
    → c.offset + record_max < 2 ^ 16
    → (parse_record v image end c context).0 ≡ ok d
    → Moves c d record_max
unfolding parse_record
parse_record-Moves v image end c d context small e = elim (Result-cases (parse_key image end c)) [
  | inr (s, k) ↦ absurd (grind arith)
  | inl ((key, keyed), k) ↦
      let first = parse_key-Moves image end key c keyed (omega arith) k in
      elim (Bool-cases (is_blob_signal (signal_at keyed.previous_index))) [
        | inl blob ↦
            let second : Moves keyed d 202 =
              parse_blob-Moves v image end key keyed d context (omega (arith, first))
                (grind arith) in
            (omega (arith, second.0, first), omega (arith, second.1, first))
        | inr scalar ↦
            let second : d.offset ≡ keyed.offset + 4 =
              parse_scalar-Moves v image end key keyed d context (omega (arith, first))
                (grind arith) in
            (omega (arith, second, first), omega (arith, second, first))
      ]
]

-- The walk ends where it started or after it, when its records fit the 16 bits of the offset.
pub parse_records-Moves :
    {C : Type 0} (v : Visitors C) (image : List ℕ) (end left : ℕ) (c d : Cursor) (context : C)
    → c.offset + left * record_max < 2 ^ 16
    → (parse_records v image end left c context).0 ≡ ok d
    → c.offset ≤ d.offset
unfolding parse_records
parse_records-Moves v image end zero c d context small e = grind arith
parse_records-Moves v image end (suc left) c d context small e =
    elim (Result-cases (parse_record v image end c context).0) [
      | inr (s, k) ↦ absurd (grind arith)
      | inl (next, k) ↦
          let step = parse_record-Moves v image end c next context (omega arith) k in
          let after = (parse_record v image end c context).1 in
          let rest =
            parse_records-Moves v image end left next d after (omega (arith, step.1))
              (grind arith) in
          omega (arith, step.0, rest)
    ]

-- From here on the cursor stands inside the image.
pub room_exact :
    (end : ℕ) (c : Cursor) → c.offset ≤ end → end < 2 ^ 16 → room end c ≡ end - c.offset
room_exact end c inside small = omega arith

pub parse_key-inside :
    (image : List ℕ) (end key : ℕ) (c d : Cursor)
    → c.offset ≤ end
    → end < 2 ^ 16
    → parse_key image end c ≡ ok (key, d)
    → d.offset ≤ end
unfolding parse_key
parse_key-inside image end key c d inside small e = grind arith

pub parse_scalar-inside :
    {C : Type 0} (v : Visitors C) (image : List ℕ) (end key : ℕ) (c d : Cursor) (context : C)
    → c.offset ≤ end
    → end < 2 ^ 16
    → (parse_scalar v image end key c context).0 ≡ ok d
    → d.offset ≤ end
unfolding parse_scalar
parse_scalar-inside v image end key c d context inside small e = grind arith

pub parse_blob-inside :
    {C : Type 0} (v : Visitors C) (image : List ℕ) (end key : ℕ) (c d : Cursor) (context : C)
    → c.offset ≤ end
    → end < 2 ^ 16
    → (parse_blob v image end key c context).0 ≡ ok d
    → d.offset ≤ end
unfolding parse_blob
parse_blob-inside v image end key c d context inside small e = grind arith

pub parse_record-inside :
    {C : Type 0} (v : Visitors C) (image : List ℕ) (end : ℕ) (c d : Cursor) (context : C)
    → c.offset ≤ end
    → end < 2 ^ 16
    → (parse_record v image end c context).0 ≡ ok d
    → d.offset ≤ end
unfolding parse_record
parse_record-inside v image end c d context inside small e =
    elim (Result-cases (parse_key image end c)) [
      | inr (s, k) ↦ absurd (grind arith)
      | inl ((key, keyed), k) ↦
          let first = parse_key-inside image end key c keyed inside small k in
          elim (Bool-cases (is_blob_signal (signal_at keyed.previous_index))) [
            | inl blob ↦ parse_blob-inside v image end key keyed d context first small (grind arith)
            | inr scalar ↦
                parse_scalar-inside v image end key keyed d context first small (grind arith)
          ]
    ]
