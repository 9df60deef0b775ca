-- ===== src/Worker/DlqHandler.antt =====
-- worker/dlqHandler.ts and shared/alerts.ts. The `catch` logs and ends the handler.
pub mod Exhausted
use webhook_delivery_engine.Prelude.{
  ℕ, ltb, ◌==◌, ◌&&◌, if◌then◌else◌, Option, none, some, List, [], ◌∷◌, length,
}
use webhook_delivery_engine.Config.{Config}
use webhook_delivery_engine.Redis.{Redis}
use webhook_delivery_engine.Queue.{Bull, Job, original}
use webhook_delivery_engine.Db.{Db, Attempt, Status, dlq, status_eq, worker, Reason}
use webhook_delivery_engine.Db.Deliveries.{DeliveryForWorker, get_for_delivery, transition}
use webhook_delivery_engine.Exec.{
  M, LastAttemptSummary, DlqAlert, pure, emit, query, capture, dlq_command, ◌>>=◌, ◌>>◌,
}

abbrev pub better : Attempt → Option Attempt → Option Attempt
better a none = some a
better a (some a') = if ltb a.attempt_number a'.attempt_number then some a' else some a

-- ORDER BY attempt_number DESC LIMIT 1
unfoldable pub last_attempt : ℕ → List Attempt → Option Attempt
last_attempt id [] = none
last_attempt id (a ∷ as') =
    let rest = last_attempt id as' in if a.delivery_id == id then better a rest else rest

abbrev pub summary : Option Attempt → Option LastAttemptSummary
summary none = none
summary (some a) = some (record {
  attempt_number = a.attempt_number;
  outcome = a.outcome;
  http_status = a.http_status;
  error_message = a.error_message;
})

module _ {r : Redis} {b : Bull} where
  unfoldable pub fire_dlq_alert : DeliveryForWorker → Option LastAttemptSummary → M r b (Unit {0})
  fire_dlq_alert d last = emit λ s. record s {
    alerts =
        record { delivery_id = d.id; endpoint_url = d.endpoint_url; last_attempt = last }
        ∷ s.alerts;
  }

  unfoldable pub exhaust_row : ℕ → Option DeliveryForWorker → M r b (Unit {0})
  exhaust_row delivery_id none = pure tt
  exhaust_row delivery_id (some d) = if status_eq d.status dlq then pure tt else do
    transition delivery_id d.status dlq worker Reason.attempts_exhausted
    dlq_command (b.add (original delivery_id) delivery_id)
    last ← query λ db. summary (last_attempt delivery_id db.attempts)
    fire_dlq_alert d last

  abbrev pub exhaust : ℕ → M r b (Unit {0})
  exhaust delivery_id = do found ← get_for_delivery delivery_id; exhaust_row delivery_id found

  -- The listener of 'failed'; a job that is `undefined` is `none`.
  unfoldable pub handle_failed : Config → Option Job → M r b (Unit {0})
  handle_failed c none = pure tt
  handle_failed c (some job) =
      if ltb job.attempts_made (length c.backoff_base_ms)
      then pure tt
      else do _ ← capture (exhaust job.delivery_id); pure tt
