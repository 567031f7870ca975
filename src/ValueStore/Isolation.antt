-- ===== src/ValueStore/Isolation.antt =====
-- MID/j1939_value_store.c: nothing but a successful commit touches the active bank.
use teep_j1939_patent.Base.{ℕ, ◌≡◌, ◌≢◌, refl, arith, ◌⊎◌, inl, inr, List, Option}
use teep_j1939_patent.Base.{Bool, true, false, none, some}
use teep_j1939_patent.Catalog.{index_from_key}
use teep_j1939_patent.ValueStore.Defs.{Store, Bank, BeginMode, Status, ok, active, staging, reject}
use teep_j1939_patent.ValueStore.Defs.{TxnState, set_staging, clear_blob, mask_set, unknown_key}
use teep_j1939_patent.ValueStore.Defs.{resource_full, value_out_of_range, unsupported_signal}
use teep_j1939_patent.ValueStore.Ops.{Outcome, begin, set_raw, write_blob, write_blob_bytes, remove}
use teep_j1939_patent.ValueStore.Ops.{drop_record, put_chunk}
use teep_j1939_patent.ValueStore.Active.{commit, abort}
use teep_j1939_patent.ValueStore.Ops.{begin_bank, put_raw, check_raw}
use teep_j1939_patent.ValueStore.Banks.{HasBanks, active-set_staging}

-- A caller's operation on the store.
pub data Op : Type 0 where
  op_begin : BeginMode → Op
  op_set_raw : ℕ → ℕ → Op
  op_write_blob : ℕ → ℕ → ℕ → Option (List ℕ) → Op
  op_remove : ℕ → Op
  op_commit : Op
  op_abort : Op

unfoldable pub apply : Op → Store → Outcome
apply (op_begin mode) s = begin s mode
apply (op_set_raw key raw) s = set_raw s key raw
apply (op_write_blob key total offset bytes) s = write_blob s key total offset bytes
apply (op_remove key) s = remove s key
apply op_commit s = commit s
apply op_abort s = (ok, abort s)

-- What a reader of the store sees: the active bank and the generation.
pub record SameActive (s t : Store) : Type 0 where
  pub same_bank : active t ≡ active s
  pub same_generation : t.generation ≡ s.generation
  pub same_index : t.active_bank ≡ s.active_bank

reject-SameActive : (s : Store) (st : Status) → SameActive s (reject s st).1
unfolding reject
reject-SameActive s st = ground arith

-- Whatever goes into the staging bank and the transaction's progress.
staged-SameActive :
    (s : Store) (b : Bank) (state : TxnState) (written : List ℕ) (count : ℕ) (touched : Bool)
    → HasBanks s
    → SameActive s (record (set_staging s b) {
      txn_state = state;
      blob_written = written;
      blob_written_count = count;
      blob_touched = touched;
    })
staged-SameActive s b state written count touched h = record {
  same_bank = active-set_staging s b h;
  same_generation = refl;
  same_index = refl;
}

begin-SameActive : (s : Store) (mode : BeginMode) → HasBanks s → SameActive s (begin s mode).1
unfolding begin
begin-SameActive s mode h =
    ground (arith, active-set_staging s (begin_bank mode (active s) (staging s)) h)

set_raw-SameActive : (s : Store) (key raw : ℕ) → HasBanks s → SameActive s (set_raw s key raw).1
unfolding set_raw
set_raw-SameActive s key raw h = ground (
  arith,
  active-set_staging s (put_raw (staging s) (index_from_key key) raw) h,
  reject-SameActive s (check_raw key raw),
)

put_chunk-SameActive :
    (s : Store) (index total offset : ℕ) (bytes : List ℕ)
    → HasBanks s
    → SameActive s (put_chunk s index total offset bytes)
unfolding put_chunk
put_chunk-SameActive s index total offset bytes h = staged-SameActive s _ s.txn_state _ _ true h

write_blob_bytes-SameActive :
    (s : Store) (index total offset : ℕ) (bytes : List ℕ)
    → HasBanks s
    → SameActive s (write_blob_bytes s index total offset bytes).1
unfolding write_blob_bytes
write_blob_bytes-SameActive s index total offset bytes h = ground (
  arith,
  put_chunk-SameActive s index total offset bytes h,
  reject-SameActive s resource_full,
  reject-SameActive s value_out_of_range,
)

write_blob-SameActive :
    (s : Store) (key total offset : ℕ) (bytes : Option (List ℕ))
    → HasBanks s
    → SameActive s (write_blob s key total offset bytes).1
unfolding write_blob
write_blob-SameActive s key total offset none h =
    ground (arith, reject-SameActive s unknown_key, reject-SameActive s unsupported_signal)
write_blob-SameActive s key total offset (some bytes) h = ground (
  arith,
  write_blob_bytes-SameActive s (index_from_key key) total offset bytes h,
  reject-SameActive s unknown_key,
  reject-SameActive s unsupported_signal,
)

drop_record-SameActive : (s : Store) (index : ℕ) → HasBanks s → SameActive s (drop_record s index)
unfolding drop_record
drop_record-SameActive s index h =
    let b = record (staging s) { active_mask = mask_set (staging s).active_mask index false } in
    ground (arith, active-set_staging s b h, active-set_staging s (clear_blob b) h)

remove-SameActive : (s : Store) (key : ℕ) → HasBanks s → SameActive s (remove s key).1
unfolding remove
remove-SameActive s key h =
    ground (arith, drop_record-SameActive s (index_from_key key) h, reject-SameActive s unknown_key)

-- A commit that does not answer OK changes nothing a reader sees, and closes the transaction.
pub commit_failed-SameActive : (s : Store) → (commit s).0 ≢ ok → SameActive s (commit s).1
unfolding commit
commit_failed-SameActive s failed = ground arith

-- Atomicity: the active bank, its index and the generation stay as they are under every
-- operation that does not answer OK, and under every operation that is not a commit.
pub apply-SameActive :
    (op : Op) (s : Store)
    → HasBanks s
    → ((apply op s).0 ≢ ok) ⊎ (op ≢ op_commit)
    → SameActive s (apply op s).1
unfolding apply abort
apply-SameActive (op_begin mode) s h why = begin-SameActive s mode h
apply-SameActive (op_set_raw key raw) s h why = set_raw-SameActive s key raw h
apply-SameActive (op_write_blob key total offset bytes) s h why =
    write_blob-SameActive s key total offset bytes h
apply-SameActive (op_remove key) s h why = remove-SameActive s key h
apply-SameActive op_commit s h (inl failed) = commit_failed-SameActive s failed
apply-SameActive op_commit s h (inr other) = absurd (other refl)
apply-SameActive op_abort s h why = record {
  same_bank = refl;
  same_generation = refl;
  same_index = refl;
}
