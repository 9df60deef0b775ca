-- ===== src/Worker/Processor/Unanswered.antt =====
-- The way of a delivery whose request throws: a timeout, or no connection.
use webhook_delivery_engine.Config.{Config}
use webhook_delivery_engine.Redis.{Redis}
use webhook_delivery_engine.Queue.{Bull, Job}
use webhook_delivery_engine.Worker.Signature.{Codec}
use webhook_delivery_engine.Db.Deliveries.{transition, DeliveryForWorker}
use webhook_delivery_engine.Exec.{
  capture, emit, refused, attempt_failed, deliver_error, ok, err, calm, await, with_tx, fine, ◌>>=◌,
  throw, pure, asks, date_now, Run, Thrown, DeliverErrorKind, Inputs,
}
use webhook_delivery_engine.Prelude.{
  ◌∙◌, ap, arith, ◌<◌, ◌/◌, ◌∷◌, refl, false, ◌-◌, true, some, ◌≡◌, none, ◌+◌, is_some, ℕ, String,
}
use webhook_delivery_engine.Db.{
  worker, delivering, failed, has_attempt, ErrorMessage, find_delivery, Attempt, Reason,
  AttemptOutcome,
}
use webhook_delivery_engine.Worker.Processor.{
  outbound, attempt_call, next_attempt_at, call_input, breaker_bookkeeping, settle,
}
use webhook_delivery_engine.Worker.Outcome.{to_status, is_real_failure_outcome, judge}
use webhook_delivery_engine.Db.Attempts.{record_attempt, RecordAttemptInput}
use webhook_delivery_engine.Worker.Processor.Accepted.{after_request, after_record}
use webhook_delivery_engine.Worker.HttpClient.{as_deliver_error, deliver, classify}
use webhook_delivery_engine.Worker.Processor.Rejected.{record_failure-quiet, with_redis, due_at}
use webhook_delivery_engine.Redis.Breaker.{closed, record_failure}
use webhook_delivery_engine.Db.Rows.{status_of}
use webhook_delivery_engine.Db.Attempts.Records.{attempts-recorded, status_of-recorded, records}
use webhook_delivery_engine.Worker.Heartbeat.{ticks, with_lock_heartbeat}
use webhook_delivery_engine.Db.Deliveries.Moves.{moves, attempts-moved, is_some-moved}
use webhook_delivery_engine.Worker.HttpClient.Timeouts.{classify-IsTimeout, IsTimeout}

abbrev pub unanswered_outcome : DeliverErrorKind → AttemptOutcome
unanswered_outcome DeliverErrorKind.timeout = AttemptOutcome.timeout
unanswered_outcome DeliverErrorKind.conn_error = AttemptOutcome.conn_error

abbrev pub unanswered_reason : Config → DeliverErrorKind → Reason
unanswered_reason c DeliverErrorKind.timeout = Reason.timeout c.http_timeout_ms
unanswered_reason c DeliverErrorKind.conn_error = Reason.conn_error

to_status-unanswered_outcome :
    (kind : DeliverErrorKind) → to_status (unanswered_outcome kind) ≡ failed
to_status-unanswered_outcome DeliverErrorKind.timeout = refl
to_status-unanswered_outcome DeliverErrorKind.conn_error = refl

-- The record of an attempt whose request threw.
abbrev pub unanswered_input :
    Config → Job → DeliveryForWorker → DeliverErrorKind → String → ℕ → ℕ → ℕ → RecordAttemptInput
unanswered_input c job d kind message started_at finished_at next =
    call_input job d
      (record {
        outcome = unanswered_outcome kind;
        http_status = none;
        response_body = none;
        error_message = some (ErrorMessage.text message);
        reason = unanswered_reason c kind;
      })
      started_at finished_at (some next)

-- The row of the attempt.
abbrev pub unanswered_row : Job → DeliveryForWorker → DeliverErrorKind → String → ℕ → ℕ → Attempt
unanswered_row job d kind message started_at finished_at = record {
  delivery_id = job.delivery_id;
  attempt_number = d.attempt_count + 1;
  outcome = unanswered_outcome kind;
  http_status = none;
  response_body = none;
  error_message = some (ErrorMessage.text message);
  latency_ms = finished_at - started_at;
  started_at = started_at;
  finished_at = finished_at;
}

module _ {r : Redis} {b : Bull} (c : Config) (i : Inputs) (job : Job) (d : DeliveryForWorker) where
  settle-unanswered :
      (kind : DeliverErrorKind) (message : String) (started_at finished_at : ℕ) (run : Run r b)
      (t : r.State) (n : ℕ)
      → record_failure c d.endpoint_id (calm i) run ≡ (ok tt, with_redis c i t n run)
      → i.faults n ≡ fine
      → is_some (find_delivery job.delivery_id run.shared.db.deliveries) ≡ true
      → has_attempt job.delivery_id (d.attempt_count + 1) run.shared.db.attempts ≡ false
      → settle c job d closed
          (judge c false (err (deliver_error kind message)))
          started_at
          finished_at
          (calm i)
          run
        ≡ (
          err (attempt_failed (unanswered_reason c kind)),
          after_record c i job d
              (unanswered_input c job d kind message started_at finished_at (due_at c i d n))
              (with_redis c i t n run),
        )
  unfolding settle judge breaker_bookkeeping next_attempt_at date_now asks pure throw ◌>>=◌
      record_attempt with_tx await is_real_failure_outcome
  settle-unanswered DeliverErrorKind.timeout message started_at finished_at run t n counted good
        found new =
      rw counted (
        rw good (
          rw
            (records
              (unanswered_input c job d DeliverErrorKind.timeout message started_at finished_at
                (due_at c i d n))
              (i.time n) run.shared.db found new)
            refl))
  settle-unanswered DeliverErrorKind.conn_error message started_at finished_at run t n counted good
        found new =
      rw counted (
        rw good (
          rw
            (records
              (unanswered_input c job d DeliverErrorKind.conn_error message started_at finished_at
                (due_at c i d n))
              (i.time n) run.shared.db found new)
            refl))

module _ {r : Redis} {b : Bull} (c : Config) (k : Codec) (i : Inputs) (job : Job)
    (d : DeliveryForWorker) where
  -- The process after the record of the attempt.
  abbrev unanswered_run : Thrown → r.State → ℕ → Run r b → Run r b
  unanswered_run thrown_value t n run =
      after_record c i job d
        (unanswered_input c job d (classify thrown_value) thrown_value.message
          (i.time (run.step + 1)) (i.time (run.step + 1 + 1)) (due_at c i d n))
        (with_redis c i t n (after_request c k i job d run))

  attempt_call-run :
      (token : ℕ) (run : Run r b) (x : Thrown) (t : r.State) (n : ℕ)
      → record_failure c d.endpoint_id (calm i) (after_request c k i job d run)
        ≡ (ok tt, with_redis c i t n (after_request c k i job d run))
      → i.faults n ≡ fine
      → is_some (find_delivery job.delivery_id run.shared.db.deliveries) ≡ true
      → has_attempt job.delivery_id (d.attempt_count + 1) run.shared.db.attempts ≡ false
      → i.beats (run.step + 1) ≡ 0
      → i.faults run.step ≡ fine
      → i.faults (run.step + 1) ≡ refused x
      → attempt_call c k job d closed token (calm i) run
        ≡ (err (attempt_failed (unanswered_reason c (classify x))), unanswered_run x t n run)
  unfolding attempt_call transition with_tx await asks date_now with_lock_heartbeat ticks deliver
      as_deliver_error emit capture pure ◌>>=◌
  attempt_call-run token run x t n counted good_record found new calm_beat good thrown_at =
      rw good (
        rw
          (moves job.delivery_id d.status delivering worker (Reason.attempt (d.attempt_count + 1)) _
            run.shared.db found)
          (rw calm_beat (
            rw thrown_at (
              settle-unanswered c i job d (classify x) x.message _ _ (after_request c k i job d run)
                t n counted good_record (rw is_some-moved found) (rw attempts-moved new)))))

  -- The attempt is recorded as one of this kind.
  abbrev pub IsRecordedAs : DeliverErrorKind → ℕ → Run r b → Thrown → Type 0
  IsRecordedAs kind token run t =
      let outcome = (attempt_call c k job d closed token (calm i) run).0 in
      let left = (attempt_call c k job d closed token (calm i) run).1.shared in
      (outcome ≡ err (attempt_failed (unanswered_reason c kind)))
      × (status_of job.delivery_id left.db.deliveries ≡ some failed)
      × (left.db.attempts
          ≡ unanswered_row job d kind t.message (i.time (run.step + 1)) (i.time (run.step + 1 + 1))
            ∷ run.shared.db.attempts)
      × (left.posts
          ≡ outbound k job.delivery_id d (i.time (run.step + 1) / 1000) ∷ run.shared.posts)

  attempt_call-IsRecordedAs :
      (token : ℕ) (run : Run r b) (t : Thrown) (kind : DeliverErrorKind)
      → classify t ≡ kind
      → is_some (find_delivery job.delivery_id run.shared.db.deliveries) ≡ true
      → has_attempt job.delivery_id (d.attempt_count + 1) run.shared.db.attempts ≡ false
      → i.beats (run.step + 1) ≡ 0
      → i.faults run.step ≡ fine
      → i.faults (run.step + 1) ≡ refused t
      → ((m : ℕ) → run.step + 1 < m → i.faults m ≡ fine)
      → IsRecordedAs kind token run t
  attempt_call-IsRecordedAs token run t kind is_kind found new calm_beat good thrown_at later =
      let (s, n, le, counted) =
        record_failure-quiet c i d.endpoint_id (after_request c k i job d run)
          (λ m le. later m (omega arith)) in
      rw
        (attempt_call-run token run t s n counted (later n (omega arith)) found new calm_beat good
          thrown_at)
        (rw is_kind (
          refl,
          status_of-recorded _ _ _ (rw is_some-moved found)
              ∙ ap some (to_status-unanswered_outcome kind),
          rw (attempts-recorded, attempts-moved) refl,
          refl,
        ))

  -- An undisturbed attempt under a closed breaker, of a delivery that has no row of it yet, whose request
  -- throws before the first heartbeat, while no other command fails: the request was begun once, the delivery
  -- is FAILED, and the attempt is recorded with no answer and the message that was thrown: as a timeout,
  -- which is also the reason of the job's failure, where an Error was thrown by the name AbortError or with
  -- one of undici's three codes of timeouts in its message, and otherwise as a connection error.
  pub attempt_call-unanswered :
      (token : ℕ) (run : Run r b) (t : Thrown)
      → is_some (find_delivery job.delivery_id run.shared.db.deliveries) ≡ true
      → has_attempt job.delivery_id (d.attempt_count + 1) run.shared.db.attempts ≡ false
      → i.beats (run.step + 1) ≡ 0
      → i.faults run.step ≡ fine
      → i.faults (run.step + 1) ≡ refused t
      → ((m : ℕ) → run.step + 1 < m → i.faults m ≡ fine)
      → (IsTimeout t → IsRecordedAs DeliverErrorKind.timeout token run t)
        × (¬ IsTimeout t → IsRecordedAs DeliverErrorKind.conn_error token run t)
  attempt_call-unanswered token run t found new calm_beat good thrown_at later = (
    λ late.
        attempt_call-IsRecordedAs token run t _ ((classify-IsTimeout t).0 late) found new calm_beat
          good thrown_at later,
    λ other.
        attempt_call-IsRecordedAs token run t _ ((classify-IsTimeout t).1 other) found new calm_beat
          good thrown_at later,
  )
