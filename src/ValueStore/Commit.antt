-- ===== src/ValueStore/Commit.antt =====
-- MID/j1939_value_store.c: `J1939_Value_Store_Commit` accepts exactly the complete and valid
-- staging banks.
use teep_j1939_patent.Base.{ℕ, zero, suc, ◌+◌, ◌≤◌, ◌<◌, ◌≡◌, arith}
use teep_j1939_patent.Base.{◌↔◌, true, false, ◌&&◌, if◌then◌else◌, ◌!=◌}
use native.Mathlib.Decide.{ℕ_discrete}
use teep_j1939_patent.Catalog.{catalog_signal_count}
use teep_j1939_patent.ValueStore.Defs.{Store, Bank, ok, staging}
use teep_j1939_patent.ValueStore.Defs.{txn_open, txn_ready, mask_test}
use teep_j1939_patent.ValueStore.Active.{
  commit, commit_status, validate_loop, record_status, tail_bits_set,
}

-- The active records of a bank, counted from `i` on.
unfoldable pub count_active : Bank → ℕ → ℕ → ℕ
count_active b zero i = 0
count_active b (suc left) i =
    (if mask_test b.active_mask i then 1 else 0) + count_active b left (i + 1)

-- Every record of `[i, i + left)` passes its check.
abbrev pub RecordsOk : Bank → ℕ → ℕ → Type 0
RecordsOk b i left = (j : ℕ) → i ≤ j → j < i + left → record_status b j ≡ ok

validate_loop_sound :
    (b : Bank) (left i count : ℕ) {n : ℕ}
    → validate_loop b left i count ≡ (ok, n)
    → RecordsOk b i left × (n ≡ count + count_active b left i)
unfolding validate_loop count_active
validate_loop_sound b zero i count h = (λ j lo hi. absurd (omega arith), ground arith)
validate_loop_sound b (suc left) i count {n} h =
    let count' = if mask_test b.active_mask i then count + 1 else count in
    let first : record_status b i ≡ ok = ground arith in
    let rest : validate_loop b left (i + 1) count' ≡ (ok, n) = ground arith in
    let ih = validate_loop_sound b left (i + 1) count' rest in
    (
      λ j lo hi. elim (ℕ_discrete j i) [
        | yes here ↦ rw here first
        | no later ↦ ih.0 j (omega arith) (omega arith)
      ],
      ground arith,
    )

validate_loop_complete :
    (b : Bank) (left i count : ℕ)
    → RecordsOk b i left
    → validate_loop b left i count ≡ (ok, count + count_active b left i)
unfolding validate_loop count_active
validate_loop_complete b zero i count h = ground arith
validate_loop_complete b (suc left) i count h =
    let count' = if mask_test b.active_mask i then count + 1 else count in
    let ih =
      validate_loop_complete b left (i + 1) count' λ j lo hi. h j (omega arith) (omega arith) in
    ground (arith, h i, ih)

-- What a commit demands of the staging bank: the written blob is complete, every active record
-- passes its check, and the mask has no bit beyond the catalog.
pub record IsReady (s : Store) : Type 0 where
  pub opened : s.txn_state ≡ txn_open
  pub blob_complete : s.blob_touched ≡ true → s.blob_written_count ≡ (staging s).blob_length
  pub records : RecordsOk (staging s) 0 catalog_signal_count
  pub no_tail : tail_bits_set (staging s) ≡ false

pub commit_status-ready :
    (s : Store)
    → IsReady s
    → commit_status s ≡ (ok, count_active (staging s) catalog_signal_count 0)
unfolding commit_status
commit_status-ready s r =
    let b = staging s in
    let all = validate_loop_complete b catalog_signal_count 0 0 r.records in
    let complete : (s.blob_touched && (s.blob_written_count != b.blob_length)) ≡ false =
      ground (arith, r.blob_complete) in
    ground (arith, complete, all, r.no_tail)

commit_status_accepts :
    (s : Store) {n : ℕ}
    → s.txn_state ≡ txn_open
    → commit_status s ≡ (ok, n)
    → IsReady s × (n ≡ count_active (staging s) catalog_signal_count 0)
unfolding commit_status
commit_status_accepts s {n} open_ h =
    let b = staging s in
    let whole : validate_loop b catalog_signal_count 0 0 ≡ (ok, n) = ground arith in
    let all = validate_loop_sound b catalog_signal_count 0 0 whole in
    (
      record {
        opened = open_;
        blob_complete = λ t. ground arith;
        records = all.0;
        no_tail = ground arith;
      },
      omega (arith, all.1),
    )

-- A commit answers OK exactly when a transaction is open, the blob it wrote is complete, every
-- record that is active in the staging bank passes its check, and the staging mask has no bit
-- beyond the catalog.
pub commit-ok_iff : (s : Store) → ((commit s).0 ≡ ok) ↔ IsReady s
unfolding commit txn_ready
commit-ok_iff s = (accepted s, λ r. ground (arith, r.opened, commit_status-ready s r))
  where
    accepted : (s : Store) → (commit s).0 ≡ ok → IsReady s
    accepted s e =
        let opened : s.txn_state ≡ txn_open = ground arith in
        let answered : (commit_status s).0 ≡ ok = ground arith in
        let whole : commit_status s ≡ (ok, (commit_status s).1) =
          λ i. (answered i, (commit_status s).1) in
        (commit_status_accepts s opened whole).0
