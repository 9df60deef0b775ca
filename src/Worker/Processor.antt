-- ===== src/Worker/Processor.antt =====
-- worker/processor.ts: `processDelivery`, cut where the function waits. The debug log is left out.
pub mod Postponed
pub mod Delivered
pub mod Accepted
pub mod Rejected
pub mod LockLost
pub mod Unanswered
pub mod FailedFast
use webhook_delivery_engine.Prelude.{
  ℕ, ◌+◌, ◌-◌, ◌*◌, ◌/◌, ◌^◌, Bool, true, not, ◌||◌, if◌then◌else◌, Option, none, some,
}
use webhook_delivery_engine.Config.{Config}
use webhook_delivery_engine.Redis.{Redis}
use webhook_delivery_engine.Redis.Lock.{acquire, release}
use webhook_delivery_engine.Redis.Breaker.{
  BreakerState, open_, probe, check_state, record_failure, on_probe_result,
}
use webhook_delivery_engine.Redis.TokenBucket.{try_acquire, release_token}
use webhook_delivery_engine.Queue.{Bull, Job, JobId, webhook_backoff}
use webhook_delivery_engine.Db.{
  delivering, delivered, failed, dlq, status_eq, worker, AttemptOutcome, Reason, ErrorMessage,
}
use webhook_delivery_engine.Db.Rows.{is_success}
use webhook_delivery_engine.Db.Deliveries.{DeliveryForWorker, get_for_delivery, transition}
use webhook_delivery_engine.Db.Attempts.{RecordAttemptInput, record_attempt}
use webhook_delivery_engine.Exec.{
  M, Post, delayed, attempt_failed, pure, throw, asks, date_now, try_finally, redis_command,
  queue_command, set_endpoint_id, set_bucket_acquired, get_locals, ◌>>=◌, ◌>>◌,
}
use webhook_delivery_engine.Worker.HttpClient.{deliver}
use webhook_delivery_engine.Worker.Heartbeat.{with_lock_heartbeat}
use webhook_delivery_engine.Worker.Outcome.{Verdict, judge, is_real_failure_outcome, to_status}
use webhook_delivery_engine.Worker.Signature.{Codec, sign, build_webhook_headers}

abbrev pub inactive_endpoint_delay_ms : ℕ
inactive_endpoint_delay_ms = 60_000

abbrev pub lock_contention_delay_ms : ℕ
lock_contention_delay_ms = 5_000

-- 5000 ms with a jitter of ± 2000, `random / 2 ^ 53` being `Math.random()`, without the fraction of
-- a millisecond.
abbrev pub rate_limit_delay_ms : ℕ → ℕ
rate_limit_delay_ms random = 3_000 + random * 4_000 / 2 ^ 53

-- The signed request of an attempt.
unfoldable pub outbound : Codec → ℕ → DeliveryForWorker → ℕ → Post
outbound k delivery_id d timestamp_seconds =
    let body = k.stringify (record {
      event_id = d.event_id;
      event_type = d.event_type;
      created_at = d.received_at;
      payload = d.payload;
    }) in
    record {
      url = d.endpoint_url;
      body = body;
      headers =
          build_webhook_headers delivery_id (d.attempt_count + 1) timestamp_seconds
            (sign k d.signing_secret timestamp_seconds body);
    }

-- The row of an attempt that an open breaker failed.
abbrev pub circuit_open_input : Job → DeliveryForWorker → ℕ → ℕ → RecordAttemptInput
circuit_open_input job d now next = record {
  delivery_id = job.delivery_id;
  attempt_number = d.attempt_count + 1;
  outcome = AttemptOutcome.circuit_open;
  http_status = none;
  response_body = none;
  error_message = some ErrorMessage.circuit_open;
  latency_ms = 0;
  started_at = now;
  finished_at = now;
  from_status = d.status;
  to_status = failed;
  reason = Reason.circuit_open;
  next_attempt_at = some next;
}

-- The row of an attempt that was made.
abbrev pub call_input : Job → DeliveryForWorker → Verdict → ℕ → ℕ → Option ℕ → RecordAttemptInput
call_input job d v started_at finished_at next = record {
  delivery_id = job.delivery_id;
  attempt_number = d.attempt_count + 1;
  outcome = v.outcome;
  http_status = v.http_status;
  response_body = v.response_body;
  error_message = v.error_message;
  latency_ms = finished_at - started_at;
  started_at = started_at;
  finished_at = finished_at;
  from_status = delivering;
  to_status = to_status v.outcome;
  reason = v.reason;
  next_attempt_at = next;
}

module _ {r : Redis} {b : Bull} where
  -- job.moveToDelayed(Date.now() + delay); throw new DelayedError()
  unfoldable pub postpone : JobId → ℕ → M r b (Unit {0})
  postpone id delay = do
    now ← date_now
    queue_command (b.move_to_delayed id (now + delay))
    throw delayed

  -- new Date(Date.now() + webhookBackoff(attemptNumber))
  unfoldable pub next_attempt_at : Config → ℕ → M r b ℕ
  next_attempt_at c attempt_number = do
    now ← date_now
    random ← asks (λ e step. e.random step)
    pure (now + webhook_backoff c random attempt_number)

  -- The branch of an open breaker.
  unfoldable pub fail_fast : Config → Job → DeliveryForWorker → M r b (Unit {0})
  fail_fast c job d = do
    now ← date_now
    next ← next_attempt_at c (d.attempt_count + 1)
    record_attempt (circuit_open_input job d now next)
    throw (attempt_failed Reason.circuit_open)

  -- A probe reports its result either way; an ordinary attempt only counts failures.
  unfoldable pub breaker_bookkeeping : Config → BreakerState → ℕ → AttemptOutcome → M r b (Unit {0})
  breaker_bookkeeping c probe endpoint_id outcome =
      on_probe_result c endpoint_id (is_success outcome)
  breaker_bookkeeping c _ endpoint_id outcome =
      if is_real_failure_outcome outcome then record_failure c endpoint_id else pure tt

  abbrev pub schedule : Config → AttemptOutcome → ℕ → M r b (Option ℕ)
  schedule c AttemptOutcome.success attempt_number = pure none
  schedule c _ attempt_number = do next ← next_attempt_at c attempt_number; pure (some next)

  -- From the breaker's bookkeeping to the end of the `try` block.
  unfoldable pub settle :
      Config → Job → DeliveryForWorker → BreakerState → Verdict → ℕ → ℕ → M r b (Unit {0})
  settle c job d breaker_state v started_at finished_at = do
    breaker_bookkeeping c breaker_state d.endpoint_id v.outcome
    next ← schedule c v.outcome (d.attempt_count + 1)
    record_attempt (call_input job d v started_at finished_at next)
    if is_success v.outcome then pure tt else throw (attempt_failed v.reason)

  -- With a bucket token in hand: the transition, the call under a heartbeat, and its record.
  unfoldable pub attempt_call :
      Config → Codec → Job → DeliveryForWorker → BreakerState → ℕ → M r b (Unit {0})
  attempt_call c k job d breaker_state token = do
    transition job.delivery_id d.status delivering worker (Reason.attempt (d.attempt_count + 1))
    millis ← date_now
    started_at ← date_now
    (lock_lost, result) ←
        with_lock_heartbeat c job.delivery_id token
          (deliver c (outbound k job.delivery_id d (millis / 1000)))
    finished_at ← date_now
    settle c job d breaker_state (judge c lock_lost result) started_at finished_at

  -- The in-flight cap: a pickup that is rate-limited is postponed.
  unfoldable pub rate_limited_call :
      Config → Codec → Job → DeliveryForWorker → BreakerState → ℕ → M r b (Unit {0})
  rate_limited_call c k job d breaker_state token = do
    acquired ← try_acquire c d.endpoint_id
    set_bucket_acquired acquired
    if acquired then attempt_call c k job d breaker_state token else do
      random ← asks (λ e step. e.random step)
      postpone job.id (rate_limit_delay_ms random)

  abbrev pub by_breaker :
      Config → Codec → Job → DeliveryForWorker → ℕ → BreakerState → M r b (Unit {0})
  by_breaker c k job d token open_ = fail_fast c job d
  by_breaker c k job d token breaker_state = rate_limited_call c k job d breaker_state token

  -- The `try` block from the status test on.
  unfoldable pub process_row : Config → Codec → Job → ℕ → DeliveryForWorker → M r b (Unit {0})
  process_row c k job token d =
      if status_eq d.status delivered || status_eq d.status dlq then pure tt else do
        set_endpoint_id d.endpoint_id
        if not d.endpoint_active then postpone job.id inactive_endpoint_delay_ms else do
          breaker_state ← check_state c d.endpoint_id
          by_breaker c k job d token breaker_state

  abbrev pub if_found : Config → Codec → Job → ℕ → Option DeliveryForWorker → M r b (Unit {0})
  if_found c k job token none = pure tt
  if_found c k job token (some d) = process_row c k job token d

  unfoldable pub process_locked : Config → Codec → Job → ℕ → M r b (Unit {0})
  process_locked c k job token = do
    found ← get_for_delivery job.delivery_id
    if_found c k job token found

  abbrev pub release_held : Config → Option ℕ × Bool → M r b (Unit {0})
  release_held c (some endpoint_id, true) = release_token c endpoint_id
  release_held c _ = pure tt

  -- The `finally` block.
  unfoldable pub clean_up : Config → ℕ → ℕ → M r b (Unit {0})
  clean_up c delivery_id token = do
    held ← get_locals
    release_held c held
    _ ← redis_command (λ now s. release r now delivery_id token s)
    pure tt

  unfoldable pub process_delivery : Config → Codec → Job → M r b (Unit {0})
  process_delivery c k job = do
    token ← asks (λ e step. e.token step)
    lock ← redis_command (λ now s. acquire r c now job.delivery_id token s)
    if not lock.acquired
        then postpone job.id lock_contention_delay_ms
        else try_finally (process_locked c k job lock.token) (clean_up c job.delivery_id lock.token)
