-- ===== src/Db/Attempts/Once.antt =====
-- `uq_attempts` as the guard of an attempt number.
use webhook_delivery_engine.Prelude.{ℕ, ◌≡◌, arith}
use webhook_delivery_engine.Db.{Db, has_attempt, insert_attempt, insert_transition}
use webhook_delivery_engine.Db.Attempts.{RecordAttemptInput, record_attempt_tx}
use webhook_delivery_engine.Exec.{ok, err, violation}

-- Once an attempt is recorded, recording the same attempt number of that delivery again is refused,
-- whatever else it says: two workers that both ran the attempt leave one row of it.
pub record_attempt_tx-once :
    (i i' : RecordAttemptInput) (now later : ℕ) (db db' : Db)
    → record_attempt_tx i now db ≡ ok (tt, db')
    → i'.delivery_id ≡ i.delivery_id
    → i'.attempt_number ≡ i.attempt_number
    → record_attempt_tx i' later db' ≡ err violation
unfolding record_attempt_tx insert_attempt insert_transition has_attempt
record_attempt_tx-once i i' now later db db' e d n = ground arith
