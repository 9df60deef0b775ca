-- ===== src/Worker/Processor/Accepted.antt =====
-- An undisturbed attempt that is answered with a 2xx, step by step.
use webhook_delivery_engine.Prelude.{
  ℕ, suc, ◌+◌, ◌-◌, ◌/◌, ◌≡◌, refl, true, false, ◌||◌, none, some, ◌∷◌, or_else, ltb, is_some, take,
  Bool-cases, inl, inr,
}
use webhook_delivery_engine.Config.{Config}
use webhook_delivery_engine.Redis.{Redis, open_key, fails_key, bucket_key}
use webhook_delivery_engine.Redis.Breaker.{check_state, reaches, closed}
use webhook_delivery_engine.Redis.TokenBucket.{try_acquire, token_bucket, take_token, release_token}
use webhook_delivery_engine.Queue.{Bull, Job}
use webhook_delivery_engine.Db.{
  delivered, delivering, dlq, status_eq, success, worker, Reason, has_attempt, find_delivery,
}
use webhook_delivery_engine.Db.Deliveries.{
  DeliveryForWorker, get_for_delivery, select_for_delivery, transition,
}
use webhook_delivery_engine.Db.Deliveries.Moves.{moved, moves, is_some-moved, attempts-moved}
use webhook_delivery_engine.Db.Attempts.{RecordAttemptInput, record_attempt}
use webhook_delivery_engine.Db.Attempts.Records.{recorded, records}
use webhook_delivery_engine.Exec.{
  M, Inputs, Env, Run, Shared, ok, smooth, pure, asks, await, query, capture, with_tx, emit,
  date_now, try_finally, redis_command, set_endpoint_id, set_bucket_acquired, get_locals, ◌>>=◌,
}
use webhook_delivery_engine.Worker.Signature.{Codec}
use webhook_delivery_engine.Worker.HttpClient.{DeliverResult, deliver}
use webhook_delivery_engine.Worker.Heartbeat.{with_lock_heartbeat, ticks}
use webhook_delivery_engine.Worker.Outcome.{judge, is_real_failure_outcome, is_2xx}
use webhook_delivery_engine.Worker.Processor.{
  process_locked, process_row, clean_up, rate_limited_call, attempt_call, settle,
  breaker_bookkeeping, outbound, call_input,
}

-- The record of an attempt that was answered with a 2xx.
abbrev pub accepted_input : Job → DeliveryForWorker → DeliverResult → ℕ → ℕ → RecordAttemptInput
accepted_input job d result started_at finished_at =
    call_input job d
      (record {
        outcome = success;
        http_status = some result.status;
        response_body = some result.body;
        error_message = none;
        reason = Reason.http result.status;
      })
      started_at finished_at none

-- What the request of a step answers.
abbrev pub answer : Config → Inputs → ℕ → DeliverResult
answer c i n = record {
  status = (i.response n).0;
  body = take c.max_response_body_bytes (i.response n).1;
  latency_ms = i.time (n + 1) - i.time n;
}

-- Succeeds, and leaves the database and the requests alone.
abbrev pub IsQuiet : {r : Redis} {b : Bull} → Env r b → M r b (Unit {0}) → Run r b → Type 0
IsQuiet e f run =
    ((f e run).0 ≡ ok tt)
    × ((f e run).1.shared.db ≡ run.shared.db)
    × ((f e run).1.shared.posts ≡ run.shared.posts)

pub finally-quiet :
    {r : Redis} {b : Bull} {e : Env r b} (m f : M r b (Unit {0})) (run run' : Run r b)
    → m e run ≡ (ok tt, run')
    → IsQuiet e f run'
    → let (a, after) = try_finally m f e run in
      (a ≡ ok tt) × (after.shared.db ≡ run'.shared.db) × (after.shared.posts ≡ run'.shared.posts)
unfolding try_finally
finally-quiet m f run run' done (fine, same_db, same_posts) =
    rw done (rw (fine, same_db, same_posts) (refl, refl, refl))

module _ {r : Redis} {b : Bull} (c : Config) (i : Inputs) where
  pub clean_up-IsQuiet :
      (delivery_id token endpoint_id : ℕ) (s : Shared r b) (step : ℕ)
      → IsQuiet (smooth i) (clean_up c delivery_id token) (record {
        shared = s;
        step = step;
        endpoint_id = some endpoint_id;
        bucket_acquired = true;
      })
  unfolding clean_up release_token get_locals redis_command await ◌>>=◌ pure
  clean_up-IsQuiet delivery_id token endpoint_id s step =
      elim (Bool-cases
        (ltb c.rl_max_inflight (r.incr (i.time step) (bucket_key endpoint_id) s.redis).0)) [
          | inl over ↦ rw over (refl, refl, refl)
          | inr under ↦ rw under (refl, refl, refl)
        ]

module _ {r : Redis} {b : Bull} (c : Config) (i : Inputs) (job : Job) (d : DeliveryForWorker) where
  -- The process after the record of an attempt.
  abbrev pub after_record : RecordAttemptInput → Run r b → Run r b
  after_record input run = record run {
    shared = record run.shared { db = recorded input (i.time run.step) run.shared.db };
    step = run.step + 1;
  }

  settle-accepted :
      (result : DeliverResult) (started_at finished_at : ℕ) (run : Run r b)
      → is_2xx result.status ≡ true
      → is_some (find_delivery job.delivery_id run.shared.db.deliveries) ≡ true
      → has_attempt job.delivery_id (d.attempt_count + 1) run.shared.db.attempts ≡ false
      → settle c job d closed (judge c false (ok result)) started_at finished_at (smooth i) run
        ≡ (ok tt, after_record (accepted_input job d result started_at finished_at) run)
  unfolding settle judge breaker_bookkeeping pure ◌>>=◌ record_attempt with_tx await
      is_real_failure_outcome
  settle-accepted result started_at finished_at run accepted found new = rw accepted (
      rw
        (records (accepted_input job d result started_at finished_at) (i.time run.step)
          run.shared.db found new)
        refl)

module _ {r : Redis} {b : Bull} (c : Config) (k : Codec) (i : Inputs) (job : Job)
    (d : DeliveryForWorker) where
  -- The process after the transition and the request.
  abbrev pub after_request : Run r b → Run r b
  after_request run = record run {
    shared = record run.shared {
      db =
          moved job.delivery_id d.status delivering worker (Reason.attempt (d.attempt_count + 1))
            (i.time run.step) run.shared.db;
      posts = outbound k job.delivery_id d (i.time (run.step + 1) / 1000) ∷ run.shared.posts;
    };
    step = run.step + 1 + 1;
  }

  pub attempt_call-accepted :
      (token : ℕ) (run : Run r b)
      → is_some (find_delivery job.delivery_id run.shared.db.deliveries) ≡ true
      → has_attempt job.delivery_id (d.attempt_count + 1) run.shared.db.attempts ≡ false
      → i.beats (run.step + 1) ≡ 0
      → is_2xx (i.response (run.step + 1)).0 ≡ true
      → attempt_call c k job d closed token (smooth i) run ≡ (
        ok tt,
        after_record c i job d
            (accepted_input job d
              (answer c i (run.step + 1))
              (i.time (run.step + 1))
              (i.time (run.step + 1 + 1)))
            (after_request run),
      )
  unfolding attempt_call transition with_tx await asks date_now with_lock_heartbeat ticks deliver
      emit capture pure ◌>>=◌
  attempt_call-accepted token run found new calm accepted =
      rw
        (moves job.delivery_id d.status delivering worker (Reason.attempt (d.attempt_count + 1)) _
          run.shared.db found)
        (rw calm (
          settle-accepted c i job d (answer c i (run.step + 1)) _ _ (after_request run) accepted
            (rw is_some-moved found) (rw attempts-moved new)))

module _ {r : Redis} {b : Bull} (c : Config) (k : Codec) (i : Inputs) (job : Job)
    (d : DeliveryForWorker) (token : ℕ) where
  -- The process after it has taken a bucket token.
  abbrev pub with_slot : ℕ → Run r b → Run r b
  with_slot tokens run = record run {
    shared = record run.shared {
      redis =
          (take_token r (i.time run.step) (bucket_key d.endpoint_id) c.rl_ttl_seconds
            c.rl_max_inflight (suc tokens) run.shared.redis).1;
    };
    step = run.step + 1;
    bucket_acquired = true;
  }

  pub call-slot :
      (tokens : ℕ) (run : Run r b)
      → or_else
          (r.get (i.time run.step) (bucket_key d.endpoint_id) run.shared.redis)
          c.rl_max_inflight
        ≡ suc tokens
      → rate_limited_call c k job d closed token (smooth i) run
        ≡ attempt_call c k job d closed token (smooth i) (with_slot tokens run)
  unfolding rate_limited_call try_acquire token_bucket take_token redis_command await pure
      set_bucket_acquired ◌>>=◌
  call-slot tokens run slot = rw slot refl

  -- The process after it has read the breaker as closed.
  abbrev pub checked : Run r b → Run r b
  checked run = record run { step = run.step + 1 + 1; endpoint_id = some d.endpoint_id }

  pub process_row-closed :
      (run : Run r b)
      → (status_eq d.status delivered || status_eq d.status dlq) ≡ false
      → d.endpoint_active ≡ true
      → r.get (i.time run.step) (open_key d.endpoint_id) run.shared.redis ≡ none
      → reaches c.cb_fail_threshold
          (r.get (i.time (run.step + 1)) (fails_key d.endpoint_id) run.shared.redis)
        ≡ false
      → process_row c k job token d (smooth i) run
        ≡ rate_limited_call c k job d closed token (smooth i) (checked run)
  unfolding process_row set_endpoint_id check_state redis_command await pure ◌>>=◌
  process_row-closed run open_one active expired below =
      rw (open_one, active) (rw expired (rw below refl))

  pub process_locked-found :
      (run : Run r b)
      → select_for_delivery job.delivery_id run.shared.db ≡ some d
      → process_locked c k job token (smooth i) run
        ≡ process_row c k job token d (smooth i) (record run { step = run.step + 1 })
  unfolding process_locked get_for_delivery query await ◌>>=◌
  process_locked-found run found = rw found refl
