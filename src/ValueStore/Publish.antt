-- ===== src/ValueStore/Publish.antt =====
-- MID/j1939_value_store.c: what `J1939_Value_Store_Commit` publishes.
use teep_j1939_patent.Base.{ℕ, zero, suc, ◌+◌, ◌-◌, ◌≡◌, refl, ◌∙◌, ap, subst, sym, arith, ◌⊎◌}
use teep_j1939_patent.Crc.{crc_final}
use teep_j1939_patent.Base.{ap₂, ◌%◌, ◌>>>◌, true, false, ◌&&◌, if◌then◌else◌, ◌!=◌, get_or}
use teep_j1939_patent.Catalog.{active_mask_bytes, catalog_signal_count, index_invalid}
use teep_j1939_patent.ValueStore.Defs.{Store, Bank, ok, active, staging}
use teep_j1939_patent.ValueStore.Defs.{txn_idle, txn_ready, mask_test, staging_bank}
use teep_j1939_patent.ValueStore.Defs.{check_blob, config_crc_of}
use teep_j1939_patent.ValueStore.Defs.{config_crc_loop, config_crc_record}
use teep_j1939_patent.ValueStore.Active.{commit, record_status, tail_bits_set}
use teep_j1939_patent.ValueStore.Active.{settle_blob, activate, next_generation, close}
use teep_j1939_patent.ValueStore.Commit.{count_active, RecordsOk, IsReady, commit_status-ready}
use teep_j1939_patent.ValueStore.Banks.{HasBanks, active_after_switch}

-- The checksum reads the mask, the raw values and the blob, and nothing else of a bank.
config_crc_loop_frame :
    (b : Bank) (n c left i crc : ℕ)
    → config_crc_loop (record b { active_count = n; config_crc = c }) left i crc
      ≡ config_crc_loop b left i crc
unfolding config_crc_loop config_crc_record
config_crc_loop_frame b n c zero i crc = refl
config_crc_loop_frame b n c (suc left) i crc = config_crc_loop_frame b n c left (i + 1) _

pub config_crc_of_frame :
    (b : Bank) (n c : ℕ)
    → config_crc_of (record b { active_count = n; config_crc = c }) ≡ config_crc_of b
unfolding config_crc_of
config_crc_of_frame b n c = ap crc_final (config_crc_loop_frame b n c catalog_signal_count 0 _)

count_active_frame :
    (b c : Bank) (left i : ℕ)
    → b.active_mask ≡ c.active_mask
    → count_active b left i ≡ count_active c left i
unfolding count_active
count_active_frame b c zero i e = refl
count_active_frame b c (suc left) i e =
    ap₂ ◌+◌ (ap (λ m. if mask_test m i then 1 else 0) e) (count_active_frame b c left (i + 1) e)

-- A bank that a reader can rely on: every active record passes its check, no bit of the mask lies
-- beyond the catalog, the blob belongs to an active record, and the count and the checksum are
-- those of its contents.
pub record IsCommitted (b : Bank) : Type 0 where
  pub records : RecordsOk b 0 catalog_signal_count
  pub no_tail : tail_bits_set b ≡ false
  pub blob_owned : (b.blob_index ≡ index_invalid) ⊎ (mask_test b.active_mask b.blob_index ≡ true)
  pub counted : b.active_count ≡ count_active b catalog_signal_count 0
  pub checksum : b.config_crc ≡ config_crc_of b

settle_blob-mask : (b : Bank) → (settle_blob b).active_mask ≡ b.active_mask
unfolding settle_blob
settle_blob-mask b = ground arith

check_blob-index : (b : Bank) (j : ℕ) → check_blob b j ≡ ok → b.blob_index ≡ j
unfolding check_blob
check_blob-index b j h = ground arith

-- The record that owns a cleared blob is not active, so no active record's check changes.
settle_blob-records :
    (b : Bank) (j : ℕ) → record_status b j ≡ ok → record_status (settle_blob b) j ≡ ok
unfolding settle_blob record_status
settle_blob-records b j h =
    ground
      (arith, check_blob-index b j, ap (λ m. mask_test b.active_mask m) {x = b.blob_index} {y = j})

settle_blob-owned :
    (b : Bank)
    → ((settle_blob b).blob_index ≡ index_invalid)
      ⊎ (mask_test (settle_blob b).active_mask (settle_blob b).blob_index ≡ true)
unfolding settle_blob
settle_blob-owned b = ground arith

settle_blob-tail : (b : Bank) → tail_bits_set (settle_blob b) ≡ tail_bits_set b
unfolding tail_bits_set
settle_blob-tail b =
    ap
      (λ m.
        (catalog_signal_count % 8 != 0)
        && (get_or m (active_mask_bytes - 1) 0 >>> (catalog_signal_count % 8) != 0))
      (settle_blob-mask b)

-- What a commit publishes, field by field, when the staging bank is ready.
pub record IsPublished (s t : Store) : Type 0 where
  pub switched : t.active_bank ≡ staging_bank s
  pub committed : IsCommitted (active t)
  pub same_mask : (active t).active_mask ≡ (staging s).active_mask
  pub same_values : (active t).raw_value ≡ (staging s).raw_value
  pub same_blob :
      mask_test (staging s).active_mask (staging s).blob_index ≡ true
      → ((active t).blob ≡ (staging s).blob)
        × ((active t).blob_length ≡ (staging s).blob_length)
        × ((active t).blob_index ≡ (staging s).blob_index)
  pub counted : t.generation ≡ next_generation s.generation
  pub closed : t.txn_state ≡ txn_idle

settle_blob-values : (b : Bank) → (settle_blob b).raw_value ≡ b.raw_value
unfolding settle_blob
settle_blob-values b = ground arith

settle_blob-keeps : (b : Bank) → mask_test b.active_mask b.blob_index ≡ true → settle_blob b ≡ b
unfolding settle_blob
settle_blob-keeps b h = ground arith

published_bank : Store → Bank
published_bank s =
    let b = settle_blob (staging s) in
    record b {
      active_count = count_active (staging s) catalog_signal_count 0;
      config_crc = config_crc_of b;
    }

published-IsCommitted : (s : Store) → IsReady s → IsCommitted (published_bank s)
unfolding published_bank record_status tail_bits_set check_blob
published-IsCommitted s r =
    let b = settle_blob (staging s) in
    let n = count_active (staging s) catalog_signal_count 0 in
    record {
      records = λ j lo hi. settle_blob-records (staging s) j (r.records j lo hi);
      no_tail = settle_blob-tail (staging s) ∙ r.no_tail;
      blob_owned = settle_blob-owned (staging s);
      counted =
          count_active_frame (staging s) (published_bank s) catalog_signal_count 0
            (sym (settle_blob-mask (staging s)));
      checksum = sym (config_crc_of_frame b n (config_crc_of b));
    }

commit-ready :
    (s : Store)
    → IsReady s
    → (commit s).1 ≡ close (activate s (count_active (staging s) catalog_signal_count 0))
unfolding commit txn_ready
commit-ready s r = ground (arith, r.opened, commit_status-ready s r)

-- A commit of a ready staging bank switches the banks: the active bank then holds the staged mask,
-- values and, where the blob's record is active, the staged blob, passes every check, and carries
-- the count and the checksum of its contents; the generation is the next one, and the transaction is
-- over.
pub commit-IsPublished : (s : Store) → HasBanks s → IsReady s → IsPublished s (commit s).1
unfolding activate published_bank
commit-IsPublished s h r =
    let switched : active (commit s).1 ≡ published_bank s =
      ap active (commit-ready s r) ∙ active_after_switch s (published_bank s) h in
    record {
      switched = ap (λ t. t.active_bank) (commit-ready s r);
      committed = subst IsCommitted (sym switched) (published-IsCommitted s r);
      same_mask = ap (λ b. b.active_mask) switched ∙ settle_blob-mask (staging s);
      same_values = ap (λ b. b.raw_value) switched ∙ settle_blob-values (staging s);
      same_blob = λ owned.
          let kept = settle_blob-keeps (staging s) owned in
          (
            ap (λ b. b.blob) switched ∙ ap (λ b. b.blob) kept,
            ap (λ b. b.blob_length) switched ∙ ap (λ b. b.blob_length) kept,
            ap (λ b. b.blob_index) switched ∙ ap (λ b. b.blob_index) kept,
          );
      counted = ap (λ t. t.generation) (commit-ready s r);
      closed = ap (λ t. t.txn_state) (commit-ready s r);
    }
