-- ===== src/Worker/Processor/LockLost.antt =====
-- The attempt that loses its lock while the receiver is still to answer.
use webhook_delivery_engine.Prelude.{
  ◌/◌, ◌∷◌, zero, ◌∙◌, ◌-◌, none, some, suc, true, false, ◌+◌, is_some, ℕ, ◌≡◌, refl,
}
use webhook_delivery_engine.Redis.{lock_key, Redis}
use webhook_delivery_engine.Queue.{Job, Bull}
use webhook_delivery_engine.Config.{Config}
use webhook_delivery_engine.Exec.{
  attempt_failed, err, Result, emit, throw, ok, date_now, ◌>>=◌, pure, asks, smooth, with_tx, await,
  redis_command, capture, Run, Inputs,
}
use webhook_delivery_engine.Worker.Signature.{Codec}
use webhook_delivery_engine.Worker.Heartbeat.{with_lock_heartbeat, tick, ticks}
use webhook_delivery_engine.Db.Deliveries.{transition, DeliveryForWorker}
use webhook_delivery_engine.Redis.Lock.{extend_lock, extend, holds}
use webhook_delivery_engine.Db.{
  worker, delivering, failed, Reason, ErrorMessage, has_attempt, AttemptOutcome, find_delivery,
  Attempt,
}
use webhook_delivery_engine.Db.Attempts.{record_attempt, RecordAttemptInput}
use webhook_delivery_engine.Worker.Processor.Accepted.{after_request, after_record}
use webhook_delivery_engine.Worker.Processor.{
  outbound, next_attempt_at, breaker_bookkeeping, call_input, settle, attempt_call,
}
use webhook_delivery_engine.Worker.Outcome.{is_real_failure_outcome, lock_lost_verdict, judge}
use webhook_delivery_engine.Worker.Processor.Rejected.{with_redis, due_at}
use webhook_delivery_engine.Worker.HttpClient.{DeliverResult, deliver}
use webhook_delivery_engine.Redis.Breaker.{closed}
use webhook_delivery_engine.Db.Deliveries.Moves.{attempts-moved, is_some-moved, moves}
use webhook_delivery_engine.Db.Rows.{status_of}
use webhook_delivery_engine.Db.Attempts.Records.{attempts-recorded, status_of-recorded, records}

-- The record of the attempt, whatever the receiver answered.
abbrev pub lost_input : Job → DeliveryForWorker → ℕ → ℕ → ℕ → RecordAttemptInput
lost_input job d started_at finished_at next =
    call_input job d lock_lost_verdict started_at finished_at (some next)

-- The row of the attempt.
abbrev pub lost_row : Job → DeliveryForWorker → ℕ → ℕ → Attempt
lost_row job d started_at finished_at = record {
  delivery_id = job.delivery_id;
  attempt_number = d.attempt_count + 1;
  outcome = AttemptOutcome.lock_lost;
  http_status = none;
  response_body = none;
  error_message = some ErrorMessage.lock_lost;
  latency_ms = finished_at - started_at;
  started_at = started_at;
  finished_at = finished_at;
}

module _ {r : Redis} {b : Bull} (c : Config) (i : Inputs) (delivery_id token : ℕ) where
  -- A lost lock stays lost, and a heartbeat changes nothing but Redis.
  ticks-lost :
      (n : ℕ) (run : Run r b)
      → (t : r.State) × (m : ℕ) × (ticks c delivery_id token n true (smooth i) run
          ≡ (ok true, with_redis c i t m run))
  unfolding ticks tick capture redis_command await pure ◌>>=◌
  ticks-lost zero run = (run.shared.redis, run.step, refl)
  ticks-lost (suc n) run = ticks-lost n (
      with_redis c i (extend r c (i.time run.step) delivery_id token run.shared.redis).1
        (run.step + 1) run)

  -- The extension of a lock that the token does not hold finds it lost.
  ticks-first :
      (n : ℕ) (run : Run r b)
      → holds (r.get (i.time run.step) (lock_key delivery_id) run.shared.redis) token ≡ false
      → ticks c delivery_id token (suc n) false (smooth i) run
        ≡ ticks c delivery_id token n true (smooth i) (record run { step = run.step + 1 })
  unfolding ticks tick capture redis_command await pure ◌>>=◌ extend extend_lock
  ticks-first n run foreign = rw foreign refl

  ticks-lock_lost :
      (n : ℕ) (run : Run r b)
      → holds (r.get (i.time run.step) (lock_key delivery_id) run.shared.redis) token ≡ false
      → (t : r.State) × (m : ℕ) × (ticks c delivery_id token (suc n) false (smooth i) run
          ≡ (ok true, with_redis c i t m run))
  ticks-lock_lost n run foreign =
      let (t, m, lost) = ticks-lost n (record run { step = run.step + 1 }) in
      (t, m, ticks-first n run foreign ∙ lost)

module _ {r : Redis} {b : Bull} (c : Config) (i : Inputs) (job : Job) (d : DeliveryForWorker) where
  settle-lock_lost :
      (result : Result DeliverResult) (started_at finished_at : ℕ) (run : Run r b)
      → is_some (find_delivery job.delivery_id run.shared.db.deliveries) ≡ true
      → has_attempt job.delivery_id (d.attempt_count + 1) run.shared.db.attempts ≡ false
      → settle c job d closed (judge c true result) started_at finished_at (smooth i) run ≡ (
        err (attempt_failed Reason.lock_lost),
        after_record c i job d
            (lost_input job d started_at finished_at (due_at c i d run.step))
            run,
      )
  unfolding settle judge breaker_bookkeeping next_attempt_at date_now asks pure throw ◌>>=◌
      record_attempt with_tx await is_real_failure_outcome
  settle-lock_lost result started_at finished_at run found new =
      rw
        (records (lost_input job d started_at finished_at (due_at c i d run.step)) (i.time run.step)
          run.shared.db found new)
        refl

module _ {r : Redis} {b : Bull} (c : Config) (k : Codec) (i : Inputs) (job : Job)
    (d : DeliveryForWorker) where
  -- The process when the request is out.
  abbrev pub waiting : Run r b → Run r b
  waiting run = record (after_request c k i job d run) { step = run.step + 1 }

  -- The process after the heartbeats and the record of the attempt.
  abbrev lost_run : r.State → ℕ → Run r b → Run r b
  lost_run t m run =
      after_record c i job d
        (lost_input job d (i.time (run.step + 1)) (i.time (m + 1)) (due_at c i d (m + 1)))
        (with_redis c i t (m + 1) (waiting run))

  attempt_call-ticked :
      (token n : ℕ) (run : Run r b) (t : r.State) (m : ℕ)
      → ticks c job.delivery_id token (suc n) false (smooth i) (waiting run)
        ≡ (ok true, with_redis c i t m (waiting run))
      → is_some (find_delivery job.delivery_id run.shared.db.deliveries) ≡ true
      → has_attempt job.delivery_id (d.attempt_count + 1) run.shared.db.attempts ≡ false
      → i.beats (run.step + 1) ≡ suc n
      → attempt_call c k job d closed token (smooth i) run
        ≡ (err (attempt_failed Reason.lock_lost), lost_run t m run)
  unfolding attempt_call transition with_tx await asks date_now with_lock_heartbeat deliver emit
      capture pure ◌>>=◌
  attempt_call-ticked token n run t m lost found new beating =
      rw
        (moves job.delivery_id d.status delivering worker (Reason.attempt (d.attempt_count + 1)) _
          run.shared.db found)
        (rw beating (
          rw lost (
            settle-lock_lost c i job d _ _ _ (with_redis c i t (m + 1) (waiting run))
              (rw is_some-moved found) (rw attempts-moved new))))

  -- An undisturbed attempt under a closed breaker, of a delivery that has no row of it yet, at whose first
  -- heartbeat the lock is not held by its token, fails with lock_lost whatever the receiver answers, a 2xx
  -- included: the request was sent once, the delivery is FAILED, never DELIVERED, and the attempt is
  -- recorded as LOCK_LOST without the answer.
  pub attempt_call-lock_lost :
      (token n : ℕ) (run : Run r b)
      → is_some (find_delivery job.delivery_id run.shared.db.deliveries) ≡ true
      → has_attempt job.delivery_id (d.attempt_count + 1) run.shared.db.attempts ≡ false
      → i.beats (run.step + 1) ≡ suc n
      → holds (r.get (i.time (run.step + 1)) (lock_key job.delivery_id) run.shared.redis) token
        ≡ false
      → let outcome = (attempt_call c k job d closed token (smooth i) run).0 in
        let left = (attempt_call c k job d closed token (smooth i) run).1.shared in
        (outcome ≡ err (attempt_failed Reason.lock_lost))
        × (status_of job.delivery_id left.db.deliveries ≡ some failed)
        × ((finished_at : ℕ) × (left.db.attempts
              ≡ lost_row job d (i.time (run.step + 1)) finished_at ∷ run.shared.db.attempts))
        × (left.posts
            ≡ outbound k job.delivery_id d (i.time (run.step + 1) / 1000) ∷ run.shared.posts)
  attempt_call-lock_lost token n run found new beating foreign =
      let (t, m, lost) = ticks-lock_lost c i job.delivery_id token n (waiting run) foreign in
      rw (attempt_call-ticked token n run t m lost found new beating) (
        refl,
        status_of-recorded _ _ _ (rw is_some-moved found),
        (i.time (m + 1), rw (attempts-recorded, attempts-moved) refl),
        refl,
      )
