-- ===== src/Examples/Store.antt =====
-- MID/j1939_value_store.c on a configuration of one record.
use teep_j1939_patent.Base.{◌≡◌, ◌↔◌, ◌≤◌, refl, arith, List, [], ◌∷◌, inr, some}
use teep_j1939_patent.Base.{bit_test, bit_assign}
use teep_j1939_patent.Catalog.{signal_at, index_from_key, catalog_key_to_index, catalog_signals}
use teep_j1939_patent.ValueStore.{
  txn_ready, set_raw, begin, begin_bank, put_raw, check_raw, check_index, commit_status,
  validate_loop, record_status, tail_bits_set, is_active, activate, settle_blob,
}
use teep_j1939_patent.ValueStore.{Store, ok, begin_empty, active, init, commit, get_raw}
use teep_j1939_patent.ValueStore.Isolation.{
  Op, apply, op_begin, op_set_raw, op_commit, SameActive, apply-SameActive,
}
use teep_j1939_patent.ValueStore.Commit.{IsReady, commit-ok_iff}
use teep_j1939_patent.ValueStore.Publish.{IsCommitted, IsPublished, commit-IsPublished}
use teep_j1939_patent.ValueStore.Invariant.{run, run-init-IsCommitted, get_raw-in_bounds}
use teep_j1939_patent.Base.{ℕ}
use teep_j1939_patent.Catalog.{pgn_at, catalog_pgns}
use teep_j1939_patent.Catalog.Ranges.{InRange}
use teep_j1939_patent.Codec.{unpack_raw, initialize_payload}
use teep_j1939_patent.Scheduler.{pack_pgn}
use teep_j1939_patent.Scheduler.Payload.{IsShort, pack_pgn-reads}
use teep_j1939_patent.ValueStore.Transaction.{
  Write, set_write, write, write_all, AllAccepted, commit-AllAccepted,
}
use teep_j1939_patent.ValueStore.Shape.{IsShaped}
use teep_j1939_patent.ValueStore.ReadBack.{run-init-IsShaped, set_raw-get_raw}

-- A transaction that sets key 1 to 7.
abbrev one_value : List Op
one_value = op_begin begin_empty ∷ op_set_raw 1 7 ∷ []

unfoldable staged : Store
staged = run one_value init

unfoldable committed : Store
committed = run (op_begin begin_empty ∷ op_set_raw 1 7 ∷ op_commit ∷ []) init

commits : (commit staged).0 ≡ ok
unfolding commit staged txn_ready run apply set_raw begin begin_bank put_raw init check_raw
    index_from_key catalog_key_to_index check_index signal_at catalog_signals commit_status
    validate_loop record_status tail_bits_set bit_test bit_assign
commits = refl

staged_bank : staged.active_bank ≡ 0
unfolding staged txn_ready run apply set_raw begin begin_bank put_raw init check_raw index_from_key
    catalog_key_to_index check_index signal_at catalog_signals
staged_bank = refl

commit-ok_iff_example : ((commit staged).0 ≡ ok) ↔ IsReady staged
commit-ok_iff_example = commit-ok_iff staged

commit-IsPublished_example : IsPublished staged (commit staged).1
commit-IsPublished_example =
    commit-IsPublished staged (omega (arith, staged_bank)) ((commit-ok_iff staged).0 commits)

apply-SameActive_example : SameActive staged (apply (op_set_raw 1 9) staged).1
apply-SameActive_example =
    apply-SameActive (op_set_raw 1 9) staged (omega (arith, staged_bank)) (inr (λ e. cc))

run-init-IsCommitted_example :
    IsCommitted (active (run (op_begin begin_empty ∷ op_set_raw 1 7 ∷ op_commit ∷ []) init))
run-init-IsCommitted_example =
    run-init-IsCommitted (op_begin begin_empty ∷ op_set_raw 1 7 ∷ op_commit ∷ [])

-- The value comes back after the commit.
reads_seven : get_raw committed (index_from_key 1) ≡ some 7
unfolding get_raw is_active committed commit staged txn_ready run apply set_raw begin begin_bank
    put_raw init check_raw index_from_key catalog_key_to_index check_index signal_at catalog_signals
    commit_status validate_loop record_status tail_bits_set bit_test bit_assign activate settle_blob
reads_seven = refl

get_raw-in_bounds_example :
    ((signal_at (index_from_key 1)).raw_min ≤ 7) × (7 ≤ (signal_at (index_from_key 1)).raw_max)
unfolding committed
get_raw-in_bounds_example =
    get_raw-in_bounds (op_begin begin_empty ∷ op_set_raw 1 7 ∷ op_commit ∷ []) (index_from_key 1) 7
      reads_seven

committed-IsCommitted : IsCommitted (active committed)
unfolding committed
committed-IsCommitted =
    run-init-IsCommitted (op_begin begin_empty ∷ op_set_raw 1 7 ∷ op_commit ∷ [])

abbrev vw_index : ℕ
vw_index = 47

vw_range : IsShort vw_index × InRange vw_index (index_from_key 1)
unfolding index_from_key catalog_key_to_index pgn_at catalog_pgns
vw_range = (omega arith, record { pgn = omega arith; from = omega arith; below = omega arith })

pack_pgn-reads_example :
    unpack_raw
      (pack_pgn committed (pgn_at vw_index) initialize_payload 8).0
      8
      (signal_at (index_from_key 1)).start_bit
      (signal_at (index_from_key 1)).bit_length
    ≡ some 7
pack_pgn-reads_example =
    pack_pgn-reads committed vw_index (index_from_key 1) 7 committed-IsCommitted vw_range.0
      vw_range.1 reads_seven

-- The same transaction, as a begin and its writes.
abbrev one_write : List Write
one_write = set_write 1 7 ∷ []

begins : (begin init begin_empty).0 ≡ ok
unfolding begin init
begins = refl

commits_write : (commit (write_all one_write (begin init begin_empty).1)).0 ≡ ok
unfolding commit write_all write txn_ready set_raw begin begin_bank put_raw init check_raw
    index_from_key catalog_key_to_index check_index signal_at catalog_signals commit_status
    validate_loop record_status tail_bits_set bit_test bit_assign
commits_write = refl

commit-AllAccepted_example : AllAccepted one_write (begin init begin_empty).1
commit-AllAccepted_example = commit-AllAccepted init begin_empty one_write begins commits_write

unfoldable opened : Store
opened = run (op_begin begin_empty ∷ []) init

opened_bank : opened.active_bank ≡ 0
unfolding opened run apply begin begin_bank init
opened_bank = refl

opened-IsShaped : IsShaped opened
unfolding opened
opened-IsShaped = run-init-IsShaped (op_begin begin_empty ∷ [])

sets_seven : (set_raw opened 1 7).0 ≡ ok
unfolding opened txn_ready run apply set_raw begin begin_bank init check_raw index_from_key
    catalog_key_to_index check_index signal_at catalog_signals
sets_seven = refl

commits_seven : (commit (set_raw opened 1 7).1).0 ≡ ok
unfolding commit opened txn_ready run apply set_raw begin begin_bank put_raw init check_raw
    index_from_key catalog_key_to_index check_index signal_at catalog_signals commit_status
    validate_loop record_status tail_bits_set bit_test bit_assign
commits_seven = refl

set_raw-get_raw_example : get_raw (commit (set_raw opened 1 7).1).1 (index_from_key 1) ≡ some 7
set_raw-get_raw_example =
    set_raw-get_raw opened 1 7 (omega (arith, opened_bank)) opened-IsShaped sets_seven commits_seven
