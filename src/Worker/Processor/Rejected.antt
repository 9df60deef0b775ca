-- ===== src/Worker/Processor/Rejected.antt =====
-- The way of a delivery that the receiver answers with no 2xx.
use webhook_delivery_engine.Prelude.{
  arith, ◌≤◌, ap, ◌∙◌, ◌/◌, ◌∷◌, suc, or_else, ◌||◌, none, ◌*◌, true, is_some, false, inr, inl, leb,
  Bool-cases, refl, ◌-◌, take, ◌≡◌, some, ◌+◌, ℕ,
}
use webhook_delivery_engine.Redis.{bucket_key, lock_key, open_key, fails_key, Redis}
use webhook_delivery_engine.Exec.{
  calm, fine, capture, emit, start, Shared, with_tx, throw, ok, smooth, attempt_failed, asks, err,
  ◌>>=◌, date_now, pure, await, M, redis_command, Env, Run, Inputs, try_finally,
}
use webhook_delivery_engine.Queue.{webhook_backoff, Bull, Job}
use webhook_delivery_engine.Config.{Config}
use webhook_delivery_engine.Db.Deliveries.{select_for_delivery, transition, DeliveryForWorker}
use webhook_delivery_engine.Redis.Breaker.{reaches, closed, record_failure}
use webhook_delivery_engine.Db.{
  failed, worker, delivering, dlq, delivered, status_eq, has_attempt, find_delivery, ErrorMessage,
  AttemptOutcome, Reason, Attempt,
}
use webhook_delivery_engine.Worker.Processor.{
  clean_up, process_locked, outbound, process_delivery, attempt_call, next_attempt_at,
  breaker_bookkeeping, call_input, settle,
}
use webhook_delivery_engine.Worker.HttpClient.{deliver, DeliverResult}
use webhook_delivery_engine.Worker.Outcome.{is_2xx, is_real_failure_outcome, judge}
use webhook_delivery_engine.Db.Attempts.{record_attempt, RecordAttemptInput}
use webhook_delivery_engine.Worker.Processor.Accepted.{
  clean_up-IsQuiet, call-slot, process_row-closed, process_locked-found, checked, after_request,
  with_slot, answer, after_record, IsQuiet,
}
use webhook_delivery_engine.Db.Attempts.Records.{attempts-recorded, status_of-recorded, records}
use webhook_delivery_engine.Worker.Signature.{Codec}
use webhook_delivery_engine.Worker.Heartbeat.{ticks, with_lock_heartbeat}
use webhook_delivery_engine.Db.Deliveries.Moves.{selected, attempts-moved, is_some-moved, moves}
use webhook_delivery_engine.Db.Rows.{status_of}
use webhook_delivery_engine.Worker.Processor.Delivered.{locks}

-- The record of an attempt that was answered with another status.
abbrev pub rejected_input : Job → DeliveryForWorker → DeliverResult → ℕ → ℕ → ℕ → RecordAttemptInput
rejected_input job d result started_at finished_at next =
    call_input job d
      (record {
        outcome = AttemptOutcome.http_error;
        http_status = some result.status;
        response_body = some result.body;
        error_message = some (ErrorMessage.http result.status);
        reason = Reason.http result.status;
      })
      started_at finished_at (some next)

-- The row of the attempt: an HTTP error with the receiver's answer, cut to its first bytes.
abbrev pub rejected_row : Config → Inputs → Job → DeliveryForWorker → Attempt
rejected_row c i job d = record {
  delivery_id = job.delivery_id;
  attempt_number = d.attempt_count + 1;
  outcome = AttemptOutcome.http_error;
  http_status = some (i.response 6).0;
  response_body = some (take c.max_response_body_bytes (i.response 6).1);
  error_message = some (ErrorMessage.http (i.response 6).0);
  latency_ms = i.time 7 - i.time 6;
  started_at = i.time 6;
  finished_at = i.time 7;
}

-- When the next attempt is due, as a step decides.
abbrev pub due_at : Config → Inputs → DeliveryForWorker → ℕ → ℕ
due_at c i d n = i.time n + webhook_backoff c (i.random n) (d.attempt_count + 1)

finally-failed :
    {r : Redis} {b : Bull} {e : Env r b} (reason : Reason) (m f : M r b (Unit {0}))
    (run run' : Run r b)
    → m e run ≡ (err (attempt_failed reason), run')
    → IsQuiet e f run'
    → let (a, after) = try_finally m f e run in
      (a ≡ err (attempt_failed reason))
      × (after.shared.db ≡ run'.shared.db)
      × (after.shared.posts ≡ run'.shared.posts)
unfolding try_finally
finally-failed reason m f run run' done (succeeds, same_db, same_posts) =
    rw done (rw (succeeds, same_db, same_posts) (refl, refl, refl))

module _ {r : Redis} {b : Bull} (c : Config) (i : Inputs) where
  -- A process that differs in what Redis keeps and in its step.
  abbrev pub with_redis : r.State → ℕ → Run r b → Run r b
  with_redis t step run = record run { shared = record run.shared { redis = t }; step = step }

  -- What Redis keeps once the failure is counted, and once the breaker is opened for it.
  abbrev counted_redis : ℕ → Run r b → r.State
  counted_redis endpoint_id run =
      (r.expire (i.time (run.step + 1)) (fails_key endpoint_id) (c.cb_window_seconds * 1000)
        (r.incr (i.time run.step) (fails_key endpoint_id) run.shared.redis).1).1

  abbrev opened_redis : ℕ → Run r b → r.State
  opened_redis endpoint_id run =
      r.set (i.time (run.step + 1 + 1)) (open_key endpoint_id) 1 (c.cb_open_seconds * 1000)
        (counted_redis endpoint_id run)

  -- Counting a failure changes nothing but Redis, whether it opens the breaker or not.
  pub record_failure-quiet :
      (endpoint_id : ℕ) (run : Run r b)
      → ((m : ℕ) → run.step ≤ m → i.faults m ≡ fine)
      → (t : r.State) × (n : ℕ) × (run.step ≤ n)
        × (record_failure c endpoint_id (calm i) run ≡ (ok tt, with_redis t n run))
  unfolding record_failure redis_command await pure ◌>>=◌
  record_failure-quiet endpoint_id run good =
      rw (good run.step (omega arith), good (run.step + 1) (omega arith))
        (elim (Bool-cases (
          leb c.cb_fail_threshold
            (r.incr (i.time run.step) (fails_key endpoint_id) run.shared.redis).0)) [
              | inl opens ↦ (
                opened_redis endpoint_id run,
                run.step + 1 + 1 + 1,
                omega arith,
                rw opens (rw (good (run.step + 1 + 1) (omega arith)) refl),
              )
              | inr counts ↦
                  (counted_redis endpoint_id run, run.step + 1 + 1, omega arith, rw counts refl)
            ])

module _ {r : Redis} {b : Bull} (c : Config) (i : Inputs) (job : Job) (d : DeliveryForWorker) where
  settle-rejected :
      (result : DeliverResult) (started_at finished_at : ℕ) (run : Run r b) (t : r.State) (n : ℕ)
      → record_failure c d.endpoint_id (smooth i) run ≡ (ok tt, with_redis c i t n run)
      → is_2xx result.status ≡ false
      → is_some (find_delivery job.delivery_id run.shared.db.deliveries) ≡ true
      → has_attempt job.delivery_id (d.attempt_count + 1) run.shared.db.attempts ≡ false
      → settle c job d closed (judge c false (ok result)) started_at finished_at (smooth i) run ≡ (
        err (attempt_failed (Reason.http result.status)),
        after_record c i job d
            (rejected_input job d result started_at finished_at (due_at c i d n))
            (with_redis c i t n run),
      )
  unfolding settle judge breaker_bookkeeping next_attempt_at date_now asks pure throw ◌>>=◌
      record_attempt with_tx await is_real_failure_outcome
  settle-rejected result started_at finished_at run t n counted rejected found new = rw rejected (
      rw counted (
        rw
          (records (rejected_input job d result started_at finished_at (due_at c i d n)) (i.time n)
            run.shared.db found new)
          refl))

module _ {r : Redis} {b : Bull} (c : Config) (k : Codec) (i : Inputs) (job : Job)
    (d : DeliveryForWorker) where
  -- The process after a rejected attempt whose failure is counted.
  abbrev pub rejected_run : r.State → ℕ → Run r b → Run r b
  rejected_run t n run =
      after_record c i job d
        (rejected_input job d (answer c i (run.step + 1)) (i.time (run.step + 1))
          (i.time (run.step + 1 + 1)) (due_at c i d n))
        (with_redis c i t n (after_request c k i job d run))

  attempt_call-rejected :
      (token : ℕ) (run : Run r b) (t : r.State) (n : ℕ)
      → record_failure c d.endpoint_id (smooth i) (after_request c k i job d run)
        ≡ (ok tt, with_redis c i t n (after_request c k i job d run))
      → is_some (find_delivery job.delivery_id run.shared.db.deliveries) ≡ true
      → has_attempt job.delivery_id (d.attempt_count + 1) run.shared.db.attempts ≡ false
      → i.beats (run.step + 1) ≡ 0
      → is_2xx (i.response (run.step + 1)).0 ≡ false
      → attempt_call c k job d closed token (smooth i) run
        ≡ (err (attempt_failed (Reason.http (i.response (run.step + 1)).0)), rejected_run t n run)
  unfolding attempt_call transition with_tx await asks date_now with_lock_heartbeat ticks deliver
      emit capture pure ◌>>=◌
  attempt_call-rejected token run t n counted found new calm rejected =
      rw
        (moves job.delivery_id d.status delivering worker (Reason.attempt (d.attempt_count + 1)) _
          run.shared.db found)
        (rw calm (
          settle-rejected c i job d (answer c i (run.step + 1)) _ _ (after_request c k i job d run)
            t n counted rejected (rw is_some-moved found) (rw attempts-moved new)))

module _ {r : Redis} {b : Bull} (c : Config) (k : Codec) (i : Inputs) (job : Job) (s : Shared r b)
    (d : DeliveryForWorker) (tokens : ℕ) where
  abbrev locked_run : Run r b
  locked_run = record (start s) {
    shared = record s {
      redis = r.set (i.time 0) (lock_key job.delivery_id) (i.token 0) c.lock_ttl_ms s.redis;
    };
    step = 1;
  }

  -- The process when it makes the attempt.
  abbrev attempting_run : Run r b
  attempting_run =
      with_slot c k i job d (i.token 0) tokens
        (checked c k i job d (i.token 0) (record locked_run { step = 2 }))

  -- An undisturbed job that gets the lock of a delivery that is neither DELIVERED nor in DLQ, with an active
  -- endpoint, a closed breaker, a free slot and no row of this attempt yet, whose request is answered with
  -- no 2xx before the first heartbeat, sends exactly one request, the signed one of this attempt; the job
  -- fails with the status as its reason, the delivery is FAILED, and the attempt is recorded as an HTTP error.
  pub process_delivery-rejected :
      r.get (i.time 0) (lock_key job.delivery_id) s.redis ≡ none
      → select_for_delivery job.delivery_id s.db ≡ some d
      → (status_eq d.status delivered || status_eq d.status dlq) ≡ false
      → d.endpoint_active ≡ true
      → r.get (i.time 2) (open_key d.endpoint_id) s.redis ≡ none
      → reaches c.cb_fail_threshold (r.get (i.time 3) (fails_key d.endpoint_id) s.redis) ≡ false
      → or_else (r.get (i.time 4) (bucket_key d.endpoint_id) s.redis) c.rl_max_inflight ≡ suc tokens
      → i.beats 6 ≡ 0
      → is_2xx (i.response 6).0 ≡ false
      → has_attempt job.delivery_id (d.attempt_count + 1) s.db.attempts ≡ false
      → let outcome = (process_delivery c k job (smooth i) (start s)).0 in
        let left = (process_delivery c k job (smooth i) (start s)).1.shared in
        (outcome ≡ err (attempt_failed (Reason.http (i.response 6).0)))
        × (status_of job.delivery_id left.db.deliveries ≡ some failed)
        × (left.db.attempts ≡ rejected_row c i job d ∷ s.db.attempts)
        × (left.posts ≡ outbound k job.delivery_id d (i.time 6 / 1000) ∷ s.posts)
  process_delivery-rejected free found open_one active expired below slot calm rejected new =
      rw (locks c k i job s free) (
        quiet.0,
        ap (λ db. status_of job.delivery_id db.deliveries) quiet.1
            ∙ status_of-recorded _ _ _ (rw is_some-moved (selected job.delivery_id s.db found)),
        ap (λ db. db.attempts) quiet.1 ∙ rw (attempts-recorded, attempts-moved) refl,
        quiet.2,
      )
    where
      counted :
          (t : r.State) × (n : ℕ) × (record_failure c d.endpoint_id
              (smooth i)
              (after_request c k i job d attempting_run)
            ≡ (ok tt, with_redis c i t n (after_request c k i job d attempting_run)))
      counted =
          let (t, n, later, e) =
            record_failure-quiet c (record i { faults = λ m. fine }) d.endpoint_id
              (after_request c k i job d attempting_run) (λ m later. refl) in
          (t, n, e)

      rejects : process_locked c k job (i.token 0) (smooth i) locked_run ≡ (
        err (attempt_failed (Reason.http (i.response 6).0)),
        rejected_run c k i job d counted.0 counted.1 attempting_run,
      )
      rejects =
          process_locked-found c k i job d (i.token 0) locked_run found
          ∙ process_row-closed c k i job d (i.token 0) (record locked_run { step = 2 }) open_one
              active (rw r.get-set expired) (rw r.get-set below)
          ∙ call-slot c k i job d (i.token 0) tokens _ (rw r.get-set slot)
          ∙ attempt_call-rejected c k i job d (i.token 0) attempting_run counted.0 counted.1
              counted.2 (selected job.delivery_id s.db found) new calm rejected

      quiet :
          let (a, after) =
            try_finally
              (process_locked c k job (i.token 0))
              (clean_up c job.delivery_id (i.token 0))
              (smooth i)
              locked_run in
          (a ≡ err (attempt_failed (Reason.http (i.response 6).0)))
          × (after.shared.db
              ≡ (rejected_run c k i job d counted.0 counted.1 attempting_run).shared.db)
          × (after.shared.posts
              ≡ (rejected_run c k i job d counted.0 counted.1 attempting_run).shared.posts)
      quiet =
          finally-failed _ _ _ locked_run _ rejects
            (clean_up-IsQuiet c i job.delivery_id (i.token 0) d.endpoint_id _ _)
