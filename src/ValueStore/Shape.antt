-- ===== src/ValueStore/Shape.antt =====
-- MID/j1939_value_store.c: the arrays of both banks keep their sizes under every operation.
use teep_j1939_patent.Base.{
  ℕ, ◌≡◌, refl, ◌∙◌, arith, List, [], ◌∷◌, length, replicate, ◌+◌, u16, length-set,
  length-replicate, All, All-replicate, IsByte,
}
use teep_j1939_patent.Base.{
  Bool, true, false, none, some, Bool-cases, inl, inr, ◌==◌, ◌!=◌, ◌&&◌, not,
}
use teep_j1939_patent.Catalog.{
  catalog_signal_count, active_mask_bytes, index_invalid, index_from_key,
}
use teep_j1939_patent.Codec.Payload.{length-assign, assign-AllBytes}
use teep_j1939_patent.ValueStore.Defs.{
  Store, Bank, BeginMode, begin_empty, begin_copy_active, active, staging, set_staging, clear_blob,
  mask_set, mask_test, blob_max_bytes, reject,
}
use teep_j1939_patent.ValueStore.Ops.{
  begin_bank, begin, put_raw, set_raw, Chunk, put_byte, put_bytes, touch_blob, put_chunk,
  write_blob_bytes, write_blob, drop_record, remove,
}
use teep_j1939_patent.ValueStore.Active.{settle_blob, activate, commit_status, commit, abort}
use teep_j1939_patent.ValueStore.Isolation.{
  Op, apply, op_begin, op_set_raw, op_write_blob, op_remove, op_commit, op_abort,
}

pub record HasShape (b : Bank) : Type 0 where
  pub values : length b.raw_value ≡ catalog_signal_count
  pub mask : length b.active_mask ≡ active_mask_bytes
  pub mask_bytes : All IsByte b.active_mask
  pub blob : length b.blob ≡ blob_max_bytes

abbrev pub IsShaped : Store → Type 0
IsShaped s = HasShape s.bank_0 × HasShape s.bank_1

pub active-HasShape : (s : Store) → IsShaped s → HasShape (active s)
active-HasShape s h = ground (arith, h)

pub staging-HasShape : (s : Store) → IsShaped s → HasShape (staging s)
staging-HasShape s h = ground (arith, h)

set_staging-IsShaped : (s : Store) (b : Bank) → IsShaped s → HasShape b → IsShaped (set_staging s b)
set_staging-IsShaped s b h hb = (ground (arith, h), ground (arith, h))

masked-HasShape :
    (b : Bank) (index : ℕ) (on : Bool)
    → HasShape b
    → HasShape (record b { active_mask = mask_set b.active_mask index on })
masked-HasShape b index on h = record {
  values = h.values;
  mask = length-assign b.active_mask index on ∙ h.mask;
  mask_bytes = assign-AllBytes b.active_mask index on h.mask_bytes;
  blob = h.blob;
}

cleared-HasShape : (b : Bank) → HasShape b → HasShape (clear_blob b)
cleared-HasShape b h = record {
  values = h.values;
  mask = h.mask;
  mask_bytes = h.mask_bytes;
  blob = length-replicate {A = ℕ} blob_max_bytes 0;
}

no_values-HasShape :
    (b : Bank)
    → HasShape b
    → HasShape (record b {
      raw_value = replicate catalog_signal_count 0;
      active_mask = replicate active_mask_bytes 0;
    })
no_values-HasShape b h = record {
  values = length-replicate {A = ℕ} catalog_signal_count 0;
  mask = length-replicate {A = ℕ} active_mask_bytes 0;
  mask_bytes = All-replicate IsByte active_mask_bytes 0 (omega arith);
  blob = h.blob;
}

begin_bank-HasShape :
    (mode : BeginMode) (from to : Bank)
    → HasShape from
    → HasShape to
    → HasShape (begin_bank mode from to)
unfolding begin_bank
begin_bank-HasShape begin_copy_active from to hf ht = record {
  values = hf.values;
  mask = hf.mask;
  mask_bytes = hf.mask_bytes;
  blob = hf.blob;
}
begin_bank-HasShape begin_empty from to hf ht = cleared-HasShape _ (no_values-HasShape to ht)

length-put_bytes :
    (pos : ℕ) (bs : List ℕ) (c : Chunk) → length (put_bytes pos bs c).bytes ≡ length c.bytes
unfolding put_bytes put_byte
length-put_bytes pos [] c = refl
length-put_bytes pos (b ∷ bs) c = length-put_bytes (pos + 1) bs _ ∙ length-set c.bytes (u16 pos) b

touch_blob-HasShape :
    (s : Store) (index total_length : ℕ)
    → HasShape (staging s)
    → HasShape (touch_blob s index total_length)
unfolding touch_blob
touch_blob-HasShape s index total_length h = elim (Bool-cases s.blob_touched) [
  | inl e ↦ rw e h
  | inr e ↦ rw e (record {
    values = h.values;
    mask = h.mask;
    mask_bytes = h.mask_bytes;
    blob = length-replicate {A = ℕ} blob_max_bytes 0;
  })
]

put_raw-HasShape : (b : Bank) (index raw : ℕ) → HasShape b → HasShape (put_raw b index raw)
unfolding put_raw
put_raw-HasShape b index raw h = record {
  values = length-set b.raw_value index raw ∙ h.values;
  mask = length-assign b.active_mask index true ∙ h.mask;
  mask_bytes = assign-AllBytes b.active_mask index true h.mask_bytes;
  blob = h.blob;
}

chunk-HasShape :
    (s : Store) (index total_length offset : ℕ) (bytes : List ℕ)
    → IsShaped s
    → IsShaped (put_chunk s index total_length offset bytes)
unfolding put_chunk
chunk-HasShape s index total_length offset bytes h =
    let b = touch_blob s index total_length in
    let hb = touch_blob-HasShape s index total_length (staging-HasShape s h) in
    set_staging-IsShaped s _ h (record {
      values = hb.values;
      mask = length-assign b.active_mask index true ∙ hb.mask;
      mask_bytes = assign-AllBytes b.active_mask index true hb.mask_bytes;
      blob = length-put_bytes offset bytes _ ∙ hb.blob;
    })

drop_record-IsShaped : (s : Store) (index : ℕ) → IsShaped s → IsShaped (drop_record s index)
unfolding drop_record
drop_record-IsShaped s index h =
    let hb = masked-HasShape (staging s) index false (staging-HasShape s h) in
    let kept = set_staging-IsShaped s _ h hb in
    let cleared = set_staging-IsShaped s _ h (cleared-HasShape _ hb) in
    elim (Bool-cases ((staging s).blob_index == index)) [ inl e ↦ rw e cleared | inr e ↦ rw e kept ]

settle_blob-HasShape : (b : Bank) → HasShape b → HasShape (settle_blob b)
unfolding settle_blob
settle_blob-HasShape b h =
    elim (Bool-cases
      ((b.blob_index != index_invalid) && not (mask_test b.active_mask b.blob_index))) [
        | inl e ↦ rw e (cleared-HasShape b h)
        | inr e ↦ rw e h
      ]

activate-IsShaped : (s : Store) (count : ℕ) → IsShaped s → IsShaped (activate s count)
unfolding activate
activate-IsShaped s count h =
    let b = settle_blob-HasShape (staging s) (staging-HasShape s h) in
    set_staging-IsShaped s _ h
      (record { values = b.values; mask = b.mask; mask_bytes = b.mask_bytes; blob = b.blob })

pub apply-IsShaped : (op : Op) (s : Store) → IsShaped s → IsShaped (apply op s).1
unfolding apply begin set_raw write_blob write_blob_bytes remove commit abort reject
apply-IsShaped (op_begin mode) s h = ground (
  arith,
  h,
  set_staging-IsShaped s (begin_bank mode (active s) (staging s)) h (
      begin_bank-HasShape mode (active s) (staging s) (active-HasShape s h) (staging-HasShape s h)),
)
apply-IsShaped (op_set_raw key raw) s h =
    let index = index_from_key key in
    ground (
      arith,
      h,
      set_staging-IsShaped s (put_raw (staging s) index raw) h
          (put_raw-HasShape (staging s) index raw (staging-HasShape s h)),
    )
apply-IsShaped (op_write_blob key total offset none) s h = ground (arith, h)
apply-IsShaped (op_write_blob key total offset (some bytes)) s h =
    ground (arith, h, chunk-HasShape s (index_from_key key) total offset bytes h)
apply-IsShaped (op_remove key) s h =
    ground (arith, h, drop_record-IsShaped s (index_from_key key) h)
apply-IsShaped op_commit s h = ground (arith, h, activate-IsShaped s (commit_status s).1 h)
apply-IsShaped op_abort s h = h
