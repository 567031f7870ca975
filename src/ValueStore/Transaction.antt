-- ===== src/ValueStore/Transaction.antt =====
-- MID/j1939_value_store.c: one refused write poisons its transaction.
use teep_j1939_patent.Base.{ℕ, ◌≡◌, ◌≢◌, arith, List, [], ◌∷◌, Option}
use teep_j1939_patent.ValueStore.Defs.{
  Store, BeginMode, ok, txn_open, txn_rejected, reject, txn_ready,
}
use teep_j1939_patent.ValueStore.Ops.{
  Outcome, begin, set_raw, write_blob, write_blob_bytes, put_chunk, remove, drop_record,
}
use teep_j1939_patent.ValueStore.Active.{commit}
use teep_j1939_patent.ValueStore.Invariant.{Status-discrete}
use teep_j1939_patent.ValueStore.Commit.{commit-ok_iff}

-- An operation between the begin of a transaction and its end.
pub data Write : Type 0 where
  set_write : ℕ → ℕ → Write
  blob_write : ℕ → ℕ → ℕ → Option (List ℕ) → Write
  remove_write : ℕ → Write

unfoldable pub write : Write → Store → Outcome
write (set_write key raw) s = set_raw s key raw
write (blob_write key total offset bytes) s = write_blob s key total offset bytes
write (remove_write key) s = remove s key

unfoldable pub write_all : List Write → Store → Store
write_all [] s = s
write_all (w ∷ ws) s = write_all ws (write w s).1

-- Every write of a list answers OK, in order.
unfoldable pub AllAccepted : List Write → Store → Type 0
AllAccepted [] s = Unit
AllAccepted (w ∷ ws) s = ((write w s).0 ≡ ok) × AllAccepted ws (write w s).1

-- A write in an open transaction keeps it open exactly when it answers OK.
write-open :
    (w : Write) (s : Store)
    → s.txn_state ≡ txn_open
    → ((write w s).0 ≡ ok → (write w s).1.txn_state ≡ txn_open)
      × ((write w s).0 ≢ ok → (write w s).1.txn_state ≡ txn_rejected)
unfolding write set_raw write_blob write_blob_bytes put_chunk remove drop_record reject txn_ready
write-open (set_write key raw) s e =
    (λ good. ground (arith, e, good), λ bad. ground (arith, e, bad))
write-open (blob_write key total offset bytes) s e =
    (λ good. ground (arith, e, good), λ bad. ground (arith, e, bad))
write-open (remove_write key) s e = (λ good. ground (arith, e, good), λ bad. ground (arith, e, bad))

write-rejected :
    (w : Write) (s : Store) → s.txn_state ≡ txn_rejected → (write w s).1.txn_state ≡ txn_rejected
unfolding write set_raw write_blob write_blob_bytes put_chunk remove drop_record reject txn_ready
write-rejected (set_write key raw) s e = ground (arith, e)
write-rejected (blob_write key total offset bytes) s e = ground (arith, e)
write-rejected (remove_write key) s e = ground (arith, e)

write_all-rejected :
    (ws : List Write) (s : Store)
    → s.txn_state ≡ txn_rejected
    → (write_all ws s).txn_state ≡ txn_rejected
unfolding write_all
write_all-rejected [] s e = e
write_all-rejected (w ∷ ws) s e = write_all-rejected ws (write w s).1 (write-rejected w s e)

begin-open :
    (s : Store) (mode : BeginMode) → (begin s mode).0 ≡ ok → (begin s mode).1.txn_state ≡ txn_open
unfolding begin
begin-open s mode h = ground (arith, h)

write_all-open :
    (ws : List Write) (s : Store)
    → s.txn_state ≡ txn_open
    → (write_all ws s).txn_state ≡ txn_open
    → AllAccepted ws s
unfolding write_all AllAccepted
write_all-open [] s e still = tt
write_all-open (w ∷ ws) s e still = elim (Status-discrete (write w s).0 ok) [
  | yes good ↦ (good, write_all-open ws (write w s).1 ((write-open w s e).0 good) still)
  | no bad ↦ absurd (
      not_both (write_all ws (write w s).1)
        (write_all-rejected ws (write w s).1 ((write-open w s e).1 bad)) still)
]
  where
    not_both : (t : Store) → t.txn_state ≡ txn_rejected → t.txn_state ≡ txn_open → ⊥
    not_both t r o = cc

-- A transaction that is opened by `J1939_Value_Store_Begin`, then takes any values, blob chunks and
-- removals, commits only if every one of those writes was accepted.
pub commit-AllAccepted :
    (s : Store) (mode : BeginMode) (ws : List Write)
    → (begin s mode).0 ≡ ok
    → (commit (write_all ws (begin s mode).1)).0 ≡ ok
    → AllAccepted ws (begin s mode).1
commit-AllAccepted s mode ws began committed =
    write_all-open ws (begin s mode).1 (begin-open s mode began)
      ((commit-ok_iff (write_all ws (begin s mode).1)).0 committed).opened
