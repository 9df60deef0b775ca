-- ===== src/Db/Attempts/Records.antt =====
-- What a recorded attempt leaves.
use webhook_delivery_engine.Prelude.{ℕ, ◌≡◌, refl, true, false, some, ◌∷◌, is_some, ==_refl}
use webhook_delivery_engine.Db.{
  Db, Attempt, worker, find_delivery, update_delivery, has_attempt, insert_transition,
  insert_attempt,
}
use webhook_delivery_engine.Db.Rows.{status_of, is_some-update_delivery, status_of-update_delivery}
use webhook_delivery_engine.Db.Attempts.{RecordAttemptInput, record_attempt_tx, count_attempt}
use webhook_delivery_engine.Exec.{ok}

-- The row of an attempt.
abbrev pub attempt_row : RecordAttemptInput → Attempt
attempt_row i = record {
  delivery_id = i.delivery_id;
  attempt_number = i.attempt_number;
  outcome = i.outcome;
  http_status = i.http_status;
  response_body = i.response_body;
  error_message = i.error_message;
  latency_ms = i.latency_ms;
  started_at = i.started_at;
  finished_at = i.finished_at;
}

unfoldable pub recorded : RecordAttemptInput → ℕ → Db → Db
recorded i now db = record db {
  attempts = attempt_row i ∷ db.attempts;
  deliveries = update_delivery i.delivery_id (count_attempt i now) db.deliveries;
  transitions =
      record {
        delivery_id = i.delivery_id;
        from_status = some i.from_status;
        to_status = i.to_status;
        reason = i.reason;
        actor = worker;
        created_at = now;
      }
      ∷ db.transitions;
}

pub records :
    (i : RecordAttemptInput) (now : ℕ) (db : Db)
    → is_some (find_delivery i.delivery_id db.deliveries) ≡ true
    → has_attempt i.delivery_id i.attempt_number db.attempts ≡ false
    → record_attempt_tx i now db ≡ ok (tt, recorded i now db)
unfolding record_attempt_tx recorded insert_attempt insert_transition
records i now db found free =
    rw (found, free)
      (rw
        (
          is_some-update_delivery i.delivery_id i.delivery_id (count_attempt i now) db.deliveries
              (λ d. refl),
          found,
        )
        refl)

pub status_of-recorded :
    (i : RecordAttemptInput) (now : ℕ) (db : Db)
    → is_some (find_delivery i.delivery_id db.deliveries) ≡ true
    → status_of i.delivery_id (recorded i now db).deliveries ≡ some i.to_status
unfolding recorded
status_of-recorded i now db found =
    rw
      (
        status_of-update_delivery i.delivery_id i.delivery_id i.to_status (count_attempt i now)
            db.deliveries (λ d. refl) (λ d. refl),
        found,
        ==_refl i.delivery_id,
      )
      refl

pub attempts-recorded :
    (i : RecordAttemptInput) (now : ℕ) (db : Db)
    → (recorded i now db).attempts ≡ attempt_row i ∷ db.attempts
unfolding recorded
attempts-recorded i now db = refl
