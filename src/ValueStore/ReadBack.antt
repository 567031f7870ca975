-- ===== src/ValueStore/ReadBack.antt =====
-- MID/j1939_value_store.c: a value that was set and committed is the one that readers get.
use teep_j1939_patent.Base.{
  ℕ, ◌<◌, ◌≡◌, ◌≢◌, sym, subst, ap, ◌∙◌, arith, List, [], ◌∷◌, length, get_or, length-replicate,
  All, ◌*◌, All-replicate, IsByte, get_or-set_self,
}
use teep_j1939_patent.Base.{true, false, some}
use teep_j1939_patent.Catalog.{
  catalog_signal_count, active_mask_bytes, index_invalid, index_from_key,
}
use teep_j1939_patent.Catalog.WellFormed.{index_from_key_lem}
use teep_j1939_patent.Codec.Payload.{payload_bit-assign}
use teep_j1939_patent.ValueStore.Defs.{
  Store, ok, active, staging, set_staging, mask_test, mask_set, is_blob, check_index,
  blob_max_bytes, reject, txn_ready,
}
use teep_j1939_patent.ValueStore.Ops.{init, empty_bank, check_raw, put_raw, set_raw}
use teep_j1939_patent.ValueStore.Active.{commit, get_raw, is_active}
use teep_j1939_patent.ValueStore.Banks.{HasBanks, staging-set_staging}
use teep_j1939_patent.ValueStore.Isolation.{Op, apply}
use teep_j1939_patent.ValueStore.Commit.{commit-ok_iff}
use teep_j1939_patent.ValueStore.Publish.{commit-IsPublished}
use teep_j1939_patent.ValueStore.Invariant.{run}
use teep_j1939_patent.ValueStore.Shape.{HasShape, IsShaped, apply-IsShaped, staging-HasShape}

empty_bank-HasShape : HasShape empty_bank
empty_bank-HasShape = record {
  values = length-replicate {A = ℕ} catalog_signal_count 0;
  mask = length-replicate {A = ℕ} active_mask_bytes 0;
  mask_bytes = All-replicate IsByte active_mask_bytes 0 (omega arith);
  blob = length-replicate {A = ℕ} blob_max_bytes 0;
}

pub init-IsShaped : IsShaped init
unfolding init
init-IsShaped =
    let h = empty_bank-HasShape in
    let b : HasShape init.bank_0 = record {
      values = h.values;
      mask = h.mask;
      mask_bytes = h.mask_bytes;
      blob = h.blob;
    } in
    (b, b)

run-IsShaped : (ops : List Op) (s : Store) → IsShaped s → IsShaped (run ops s)
unfolding run
run-IsShaped [] s h = h
run-IsShaped (op ∷ ops) s h = run-IsShaped ops (apply op s).1 (apply-IsShaped op s h)

-- After any sequence of operations from `J1939_Value_Store_Init`, both banks have 179 values, a
-- mask of 23 bytes and a blob of 200 bytes.
pub run-init-IsShaped : (ops : List Op) → IsShaped (run ops init)
run-init-IsShaped ops = run-IsShaped ops init init-IsShaped

-- What an accepted `J1939_Value_Store_Set_Raw` says of its key and does.
set_raw-accepted :
    (s : Store) (key raw : ℕ)
    → (set_raw s key raw).0 ≡ ok
    → (index_from_key key ≢ index_invalid)
      × (is_blob (index_from_key key) ≡ false)
      × ((set_raw s key raw).1 ≡ set_staging s (put_raw (staging s) (index_from_key key) raw))
unfolding set_raw check_raw check_index reject txn_ready
set_raw-accepted s key raw h = (ground (arith, h), ground (arith, h), ground (arith, h))

index-in_catalog :
    (key : ℕ) → index_from_key key ≢ index_invalid → index_from_key key < catalog_signal_count
index-in_catalog key h = let k = index_from_key_lem key in ground (arith, k, h)

-- Reading an active scalar.
get_raw-active :
    (s : Store) (i : ℕ)
    → i < catalog_signal_count
    → is_blob i ≡ false
    → mask_test (active s).active_mask i ≡ true
    → get_raw s i ≡ some (get_or (active s).raw_value i 0)
unfolding get_raw is_active
get_raw-active s i lt scalar on = ground (arith, lt, scalar, on)

mask_set-on :
    (mask : List ℕ) (i : ℕ)
    → All IsByte mask
    → i < 8 * length mask
    → mask_test (mask_set mask i true) i ≡ true
mask_set-on mask i bytes fits = ground (arith, payload_bit-assign mask i true i bytes fits)

-- A value that `J1939_Value_Store_Set_Raw` accepts as the last write of a transaction that commits
-- is what `J1939_Value_Store_Get_Raw` returns for its key afterwards.
pub set_raw-get_raw :
    (s : Store) (key raw : ℕ)
    → HasBanks s
    → IsShaped s
    → (set_raw s key raw).0 ≡ ok
    → (commit (set_raw s key raw).1).0 ≡ ok
    → get_raw (commit (set_raw s key raw).1).1 (index_from_key key) ≡ some raw
unfolding put_raw
set_raw-get_raw s key raw banks h accepted committed =
    let i = index_from_key key in
    let (valid, scalar, staged) = set_raw-accepted s key raw accepted in
    let lt = index-in_catalog key valid in
    let t = (set_raw s key raw).1 in
    let b = put_raw (staging s) i raw in
    let shape = staging-HasShape s h in
    let banks' : HasBanks t = subst HasBanks (sym staged) banks in
    let bank : staging t ≡ b = ap staging staged ∙ staging-set_staging s b banks in
    let p = commit-IsPublished t banks' ((commit-ok_iff t).0 committed) in
    let mask = ap (λ m. mask_test m i) (p.same_mask ∙ ap (λ c. c.active_mask) bank) in
    let on =
      mask_set-on (staging s).active_mask i shape.mask_bytes (omega (arith, shape.mask, lt)) in
    let value = ap (λ v. get_or v i 0) (p.same_values ∙ ap (λ c. c.raw_value) bank) in
    let here = get_or-set_self (staging s).raw_value i raw 0 (omega (arith, shape.values, lt)) in
    get_raw-active (commit t).1 i lt scalar (mask ∙ on) ∙ ap (λ v. some v) (value ∙ here)
