-- ===== src/Db/Attempts.antt =====
-- db/attempts.repo.ts
pub mod Once
pub mod Records
use webhook_delivery_engine.Prelude.{ℕ, ◌+◌, Option, none, some, List}
use webhook_delivery_engine.Redis.{Redis}
use webhook_delivery_engine.Queue.{Bull}
use webhook_delivery_engine.Db.{
  Db, Delivery, Status, AttemptOutcome, Reason, ErrorMessage, worker, update_delivery,
  insert_attempt, insert_transition,
}
use webhook_delivery_engine.Db.Deliveries.{or_violation}
use webhook_delivery_engine.Exec.{M, Result, err, violation, with_tx}

pub record RecordAttemptInput : Type 0 where
  pub delivery_id : ℕ
  pub attempt_number : ℕ
  pub outcome : AttemptOutcome
  pub http_status : Option ℕ
  pub response_body : Option (List ℕ)
  pub error_message : Option ErrorMessage
  pub latency_ms : ℕ
  pub started_at : ℕ
  pub finished_at : ℕ
  pub from_status : Status
  pub to_status : Status
  pub reason : Reason
  pub next_attempt_at : Option ℕ

abbrev pub count_attempt : RecordAttemptInput → ℕ → Delivery → Delivery
count_attempt i now d = record d {
  status = i.to_status;
  attempt_count = d.attempt_count + 1;
  next_attempt_at = i.next_attempt_at;
  updated_at = now;
}

abbrev pub after_insert : RecordAttemptInput → ℕ → Option Db → Result (Unit {0} × Db)
after_insert i now none = err violation
after_insert i now (some db) = or_violation (
    insert_transition
      (record {
        delivery_id = i.delivery_id;
        from_status = some i.from_status;
        to_status = i.to_status;
        reason = i.reason;
        actor = worker;
        created_at = now;
      })
      (record db {
        deliveries = update_delivery i.delivery_id (count_attempt i now) db.deliveries;
      }))

-- The three statements of the transaction.
unfoldable pub record_attempt_tx : RecordAttemptInput → ℕ → Db → Result (Unit {0} × Db)
record_attempt_tx i now db = after_insert i now (
    insert_attempt
      (record {
        delivery_id = i.delivery_id;
        attempt_number = i.attempt_number;
        outcome = i.outcome;
        http_status = i.http_status;
        response_body = i.response_body;
        error_message = i.error_message;
        latency_ms = i.latency_ms;
        started_at = i.started_at;
        finished_at = i.finished_at;
      })
      db)

unfoldable pub record_attempt : {r : Redis} {b : Bull} → RecordAttemptInput → M r b (Unit {0})
record_attempt i = with_tx (record_attempt_tx i)
