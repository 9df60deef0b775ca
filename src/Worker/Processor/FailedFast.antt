-- ===== src/Worker/Processor/FailedFast.antt =====
-- The way of a delivery whose endpoint has its breaker open.
use webhook_delivery_engine.Prelude.{
  ◌+◌, ◌≡◌, ◌∙◌, refl, true, false, ◌||◌, none, some, ◌∷◌, is_some,
}
use webhook_delivery_engine.Config.{Config}
use webhook_delivery_engine.Redis.{Redis, lock_key, open_key}
use webhook_delivery_engine.Redis.Lock.{acquire}
use webhook_delivery_engine.Redis.Breaker.{check_state}
use webhook_delivery_engine.Queue.{Bull, Job, webhook_backoff}
use webhook_delivery_engine.Db.{
  Attempt, AttemptOutcome, ErrorMessage, Reason, delivered, failed, dlq, status_eq, has_attempt,
}
use webhook_delivery_engine.Db.Rows.{status_of}
use webhook_delivery_engine.Db.Deliveries.{DeliveryForWorker, select_for_delivery}
use webhook_delivery_engine.Db.Deliveries.Moves.{selected}
use webhook_delivery_engine.Db.Attempts.{record_attempt}
use webhook_delivery_engine.Db.Attempts.Records.{
  recorded, records, status_of-recorded, attempts-recorded,
}
use webhook_delivery_engine.Exec.{
  Inputs, Run, Shared, Result, err, attempt_failed, smooth, start, pure, throw, asks, await,
  with_tx, date_now, try_finally, redis_command, get_locals, set_endpoint_id, ◌>>=◌,
}
use webhook_delivery_engine.Worker.Signature.{Codec}
use webhook_delivery_engine.Worker.Processor.{
  process_delivery, process_locked, process_row, fail_fast, next_attempt_at, clean_up,
  circuit_open_input,
}
use webhook_delivery_engine.Worker.Processor.Accepted.{process_locked-found}

module _ {r : Redis} {b : Bull} (c : Config) (k : Codec) (i : Inputs) (job : Job) (s : Shared r b)
    (d : DeliveryForWorker) where
  abbrev pub outcome : Result (Unit {0})
  outcome = (process_delivery c k job (smooth i) (start s)).0

  abbrev pub left : Shared r b
  left = (process_delivery c k job (smooth i) (start s)).1.shared

  -- The row of an attempt that was not made.
  abbrev pub circuit_open_row : Attempt
  circuit_open_row = record {
    delivery_id = job.delivery_id;
    attempt_number = d.attempt_count + 1;
    outcome = AttemptOutcome.circuit_open;
    http_status = none;
    response_body = none;
    error_message = some ErrorMessage.circuit_open;
    latency_ms = 0;
    started_at = i.time 3;
    finished_at = i.time 3;
  }

  abbrev stopped_run : Run r b
  stopped_run = record {
    shared = record s {
      redis = r.set (i.time 0) (lock_key job.delivery_id) (i.token 0) c.lock_ttl_ms s.redis;
    };
    step = 3;
    endpoint_id = some d.endpoint_id;
    bucket_acquired = false;
  }

  abbrev failed_run : Run r b
  failed_run = record stopped_run {
    shared = record stopped_run.shared {
      db =
          recorded
            (circuit_open_input job d (i.time 3)
              (i.time 3 + webhook_backoff c (i.random 3) (d.attempt_count + 1)))
            (i.time 3) s.db;
    };
    step = 4;
  }

  stops :
      select_for_delivery job.delivery_id s.db ≡ some d
      → has_attempt job.delivery_id (d.attempt_count + 1) s.db.attempts ≡ false
      → fail_fast c job d (smooth i) stopped_run
        ≡ (err (attempt_failed Reason.circuit_open), failed_run)
  unfolding fail_fast next_attempt_at date_now asks pure throw record_attempt with_tx await ◌>>=◌
  stops found new =
      rw
        (records
          (circuit_open_input job d (i.time 3)
            (i.time 3 + webhook_backoff c (i.random 3) (d.attempt_count + 1)))
          (i.time 3) s.db (selected job.delivery_id s.db found) new)
        refl

  row-stops :
      (status_eq d.status delivered || status_eq d.status dlq) ≡ false
      → d.endpoint_active ≡ true
      → is_some (r.get (i.time 2) (open_key d.endpoint_id) s.redis) ≡ true
      → process_row c k job
          (i.token 0)
          d
          (smooth i)
          (record stopped_run { step = 2; endpoint_id = none })
        ≡ fail_fast c job d (smooth i) stopped_run
  unfolding process_row set_endpoint_id check_state redis_command await pure ◌>>=◌
  row-stops open_one active opened = rw (open_one, active) (rw r.get-set (rw opened refl))

  -- An undisturbed job that gets the lock of a delivery that is neither DELIVERED nor in DLQ, whose
  -- active endpoint has its breaker open, and which has no row of this attempt yet, sends nothing: it
  -- records an attempt with the outcome CIRCUIT_OPEN, leaves the delivery FAILED, and fails the job.
  pub process_delivery-failed_fast :
      r.get (i.time 0) (lock_key job.delivery_id) s.redis ≡ none
      → select_for_delivery job.delivery_id s.db ≡ some d
      → (status_eq d.status delivered || status_eq d.status dlq) ≡ false
      → d.endpoint_active ≡ true
      → is_some (r.get (i.time 2) (open_key d.endpoint_id) s.redis) ≡ true
      → has_attempt job.delivery_id (d.attempt_count + 1) s.db.attempts ≡ false
      → (outcome ≡ err (attempt_failed Reason.circuit_open))
        × (status_of job.delivery_id left.db.deliveries ≡ some failed)
        × (left.db.attempts ≡ circuit_open_row ∷ s.db.attempts)
        × (left.posts ≡ s.posts)
  unfolding process_delivery acquire try_finally clean_up get_locals redis_command await asks pure
      ◌>>=◌
  process_delivery-failed_fast free found open_one active opened new =
      rw (outcome, left, r.set_nx_free _ _ _ _ _ free)
        (rw fails (
          refl,
          status_of-recorded _ _ _ (selected job.delivery_id s.db found),
          attempts-recorded _ _ _,
          refl,
        ))
    where
      fails :
          process_locked c k job
            (i.token 0)
            (smooth i)
            (record stopped_run { step = 1; endpoint_id = none })
          ≡ (err (attempt_failed Reason.circuit_open), failed_run)
      fails =
          process_locked-found c k i job d (i.token 0)
            (record stopped_run { step = 1; endpoint_id = none }) found
          ∙ row-stops open_one active opened
          ∙ stops found new
