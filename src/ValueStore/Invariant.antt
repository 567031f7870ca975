-- ===== src/ValueStore/Invariant.antt =====
-- MID/j1939_value_store.c: the invariant of every store that the operations can produce.
use teep_j1939_patent.Base.{ℕ, ◌/◌, ◌%◌, ◌≤◌, ◌<◌, ◌≡◌, refl, sym, subst, arith}
use teep_j1939_patent.Base.{inl, inr, false, List, [], ◌∷◌}
use teep_j1939_patent.Base.{get_or-replicate, some, bit_test, zero-bit_and, ◌<<<◌, replicate}
use teep_j1939_patent.Catalog.{catalog_signal_count, active_mask_bytes}
use teep_j1939_patent.ValueStore.Defs.{Store, Bank, Status, ok, active, mask_test}
use teep_j1939_patent.Catalog.{signal_at}
use teep_j1939_patent.ValueStore.Active.{get_raw, is_active}
use teep_j1939_patent.ValueStore.Defs.{check_index, config_crc_of}
use teep_j1939_patent.ValueStore.Ops.{init, empty_bank}
use teep_j1939_patent.ValueStore.Active.{commit, record_status, tail_bits_set}
use teep_j1939_patent.ValueStore.Banks.{HasBanks, staging_bank-cases}
use teep_j1939_patent.ValueStore.Isolation.{
  Op, apply, op_commit, op_begin, op_set_raw, op_write_blob,
}
use teep_j1939_patent.ValueStore.Isolation.{
  op_remove, op_abort, SameActive, apply-SameActive, commit_failed-SameActive,
}
use teep_j1939_patent.ValueStore.Commit.{count_active, commit-ok_iff}
use teep_j1939_patent.ValueStore.Publish.{
  IsCommitted, IsPublished, commit-IsPublished, config_crc_of_frame,
}

-- The active bank is one that a reader can rely on.
pub record IsValid (s : Store) : Type 0 where
  pub banks : HasBanks s
  pub committed : IsCommitted (active s)

mask_test-empty : (i : ℕ) → mask_test (replicate active_mask_bytes 0) i ≡ false
mask_test-empty i =
    rw (get_or-replicate {A = ℕ} active_mask_bytes (i / 8) 0) (no_bit (i % 8) (omega arith))
  where
    no_bit : (k : ℕ) → k < 8 → bit_test 0 k ≡ false
    no_bit k h = unfold bit_test in rw (zero-bit_and (1 <<< k))

abbrev first_bank : Bank
first_bank = record empty_bank { config_crc = config_crc_of empty_bank }

no_active_records : count_active first_bank catalog_signal_count 0 ≡ 0
unfolding count_active bit_test
no_active_records = refl

no_tail_bits : tail_bits_set first_bank ≡ false
unfolding tail_bits_set
no_tail_bits = refl

first_bank-IsCommitted : IsCommitted first_bank
unfolding record_status
first_bank-IsCommitted = record {
  records = λ j lo hi. rw (mask_test-empty j);
  no_tail = no_tail_bits;
  blob_owned = inl refl;
  counted = sym no_active_records;
  checksum = sym (config_crc_of_frame empty_bank 0 (config_crc_of empty_bank));
}

pub init-IsValid : IsValid init
unfolding init
init-IsValid = record { banks = omega arith; committed = first_bank-IsCommitted }

SameActive-IsValid : {s t : Store} → SameActive s t → IsValid s → IsValid t
SameActive-IsValid same v = record {
  banks = subst (λ (n : ℕ). n < 2) (sym same.same_index) v.banks;
  committed = subst IsCommitted (sym same.same_bank) v.committed;
}

IsPublished-IsValid : {s t : Store} → HasBanks s → IsPublished s t → IsValid t
IsPublished-IsValid {s} h p = record {
  banks = rw p.switched (omega (arith, staging_bank-cases s h));
  committed = p.committed;
}

pub Status-discrete : Discrete Status
Status-discrete = hlevel

commit-IsValid : {s : Store} → IsValid s → IsValid (commit s).1
commit-IsValid {s} v = elim (Status-discrete (commit s).0 ok) [
  | yes accepted ↦
      IsPublished-IsValid v.banks (commit-IsPublished s v.banks ((commit-ok_iff s).0 accepted))
  | no failed ↦ SameActive-IsValid (commit_failed-SameActive s failed) v
]

-- Every operation keeps the invariant, whatever it answers.
pub apply-IsValid : (op : Op) {s : Store} → IsValid s → IsValid (apply op s).1
apply-IsValid (op_begin mode) {s} v =
    SameActive-IsValid (apply-SameActive (op_begin mode) s v.banks (inr (λ e. cc))) v
apply-IsValid (op_set_raw key raw) {s} v =
    SameActive-IsValid (apply-SameActive (op_set_raw key raw) s v.banks (inr (λ e. cc))) v
apply-IsValid (op_write_blob key total offset bytes) {s} v =
    SameActive-IsValid
      (apply-SameActive (op_write_blob key total offset bytes) s v.banks (inr (λ e. cc))) v
apply-IsValid (op_remove key) {s} v =
    SameActive-IsValid (apply-SameActive (op_remove key) s v.banks (inr (λ e. cc))) v
apply-IsValid op_commit v = unfold apply in commit-IsValid v
apply-IsValid op_abort {s} v =
    SameActive-IsValid (apply-SameActive op_abort s v.banks (inr (λ e. cc))) v

-- A caller's operations in order; their answers are dropped.
unfoldable pub run : List Op → Store → Store
run [] s = s
run (op ∷ ops) s = run ops (apply op s).1

-- Whatever sequence of operations runs from a store that satisfies the invariant, successful or
-- not, it leaves one that does.
pub run-IsValid : (ops : List Op) {s : Store} → IsValid s → IsValid (run ops s)
unfolding run
run-IsValid [] v = v
run-IsValid (op ∷ ops) v = run-IsValid ops (apply-IsValid op v)

-- After any sequence of operations from `J1939_Value_Store_Init`, the active bank holds only
-- records that pass their checks, no bit beyond the catalog, a blob only of an active record, and
-- the count and the checksum of its own contents.
pub run-init-IsCommitted : (ops : List Op) → IsCommitted (active (run ops init))
run-init-IsCommitted ops = (run-IsValid ops init-IsValid).committed

-- After any sequence of operations from `J1939_Value_Store_Init`, a scalar that
-- `J1939_Value_Store_Get_Raw` returns lies within the catalog's bounds of its record.
pub get_raw-in_bounds :
    (ops : List Op) (i raw : ℕ)
    → get_raw (run ops init) i ≡ some raw
    → ((signal_at i).raw_min ≤ raw) × (raw ≤ (signal_at i).raw_max)
unfolding get_raw is_active record_status check_index
get_raw-in_bounds ops i raw h = let c = run-init-IsCommitted ops in ground (arith, c.records i)
