-- ===== src/Worker/Processor/Delivered.antt =====
-- The way of a delivery that the receiver accepts.
use webhook_delivery_engine.Prelude.{
  take, ◌-◌, none, ℕ, suc, ◌+◌, ◌/◌, ◌≡◌, ◌∙◌, ap, refl, true, false, ◌||◌, none, some, ◌∷◌,
  or_else,
}
use webhook_delivery_engine.Config.{Config}
use webhook_delivery_engine.Redis.{Redis, lock_key, open_key, fails_key, bucket_key}
use webhook_delivery_engine.Redis.Lock.{acquire}
use webhook_delivery_engine.Redis.Breaker.{reaches}
use webhook_delivery_engine.Queue.{Bull, Job}
use webhook_delivery_engine.Db.{Attempt, success, delivered, dlq, status_eq, has_attempt}
use webhook_delivery_engine.Db.Rows.{status_of}
use webhook_delivery_engine.Db.Deliveries.{DeliveryForWorker, select_for_delivery}
use webhook_delivery_engine.Db.Deliveries.Moves.{selected, is_some-moved, attempts-moved}
use webhook_delivery_engine.Db.Attempts.Records.{status_of-recorded, attempts-recorded}
use webhook_delivery_engine.Exec.{
  Inputs, Run, Shared, Result, ok, smooth, start, asks, await, try_finally, redis_command, ◌>>=◌,
}
use webhook_delivery_engine.Worker.Signature.{Codec}
use webhook_delivery_engine.Worker.Outcome.{is_2xx}
use webhook_delivery_engine.Worker.Processor.{process_delivery, process_locked, clean_up, outbound}
use webhook_delivery_engine.Worker.Processor.Accepted.{
  accepted_input, answer, finally-quiet, clean_up-IsQuiet, after_record, after_request,
  attempt_call-accepted, with_slot, call-slot, checked, process_row-closed, process_locked-found,
}

-- The row of the attempt: a success with the receiver's answer, cut to its first bytes.
abbrev pub success_row : Config → Inputs → Job → DeliveryForWorker → Attempt
success_row c i job d = record {
  delivery_id = job.delivery_id;
  attempt_number = d.attempt_count + 1;
  outcome = success;
  http_status = some (i.response 6).0;
  response_body = some (take c.max_response_body_bytes (i.response 6).1);
  error_message = none;
  latency_ms = i.time 7 - i.time 6;
  started_at = i.time 6;
  finished_at = i.time 7;
}

module _ {r : Redis} {b : Bull} (c : Config) (k : Codec) (i : Inputs) (job : Job)
    (s : Shared r b) where
  abbrev pub outcome : Result (Unit {0})
  outcome = (process_delivery c k job (smooth i) (start s)).0

  abbrev pub left : Shared r b
  left = (process_delivery c k job (smooth i) (start s)).1.shared

  -- The process after it has taken the lock.
  abbrev locked_run : Run r b
  locked_run = record (start s) {
    shared = record s {
      redis = r.set (i.time 0) (lock_key job.delivery_id) (i.token 0) c.lock_ttl_ms s.redis;
    };
    step = 1;
  }

  abbrev delivered_run : DeliveryForWorker → ℕ → Run r b
  delivered_run d tokens =
      after_record c i job d (accepted_input job d (answer c i 6) (i.time 6) (i.time 7)) (
        after_request c k i job d (
          with_slot c k i job d (i.token 0) tokens
            (checked c k i job d (i.token 0) (record locked_run { step = 2 }))))

  pub locks :
      r.get (i.time 0) (lock_key job.delivery_id) s.redis ≡ none
      → process_delivery c k job (smooth i) (start s)
        ≡ try_finally
            (process_locked c k job (i.token 0))
            (clean_up c job.delivery_id (i.token 0))
            (smooth i)
            locked_run
  unfolding process_delivery acquire redis_command await asks ◌>>=◌
  locks free = rw (r.set_nx_free _ _ _ _ _ free) refl

  -- An undisturbed job that gets the lock of a delivery that is neither DELIVERED nor in DLQ, with
  -- an active endpoint, a closed breaker, a free slot and no row of this attempt yet, whose request is
  -- answered with a 2xx before the first heartbeat, sends exactly one request, the signed one of this
  -- attempt; the job succeeds, the delivery is DELIVERED, and the attempt is recorded as a success.
  pub process_delivery-delivered :
      (d : DeliveryForWorker) (tokens : ℕ)
      → r.get (i.time 0) (lock_key job.delivery_id) s.redis ≡ none
      → select_for_delivery job.delivery_id s.db ≡ some d
      → (status_eq d.status delivered || status_eq d.status dlq) ≡ false
      → d.endpoint_active ≡ true
      → r.get (i.time 2) (open_key d.endpoint_id) s.redis ≡ none
      → reaches c.cb_fail_threshold (r.get (i.time 3) (fails_key d.endpoint_id) s.redis) ≡ false
      → or_else (r.get (i.time 4) (bucket_key d.endpoint_id) s.redis) c.rl_max_inflight ≡ suc tokens
      → i.beats 6 ≡ 0
      → is_2xx (i.response 6).0 ≡ true
      → has_attempt job.delivery_id (d.attempt_count + 1) s.db.attempts ≡ false
      → (outcome ≡ ok tt)
        × (status_of job.delivery_id left.db.deliveries ≡ some delivered)
        × (left.db.attempts ≡ success_row c i job d ∷ s.db.attempts)
        × (left.posts ≡ outbound k job.delivery_id d (i.time 6 / 1000) ∷ s.posts)
  process_delivery-delivered d tokens free found open_one active expired below slot calm accepted
        new =
      rw (outcome, left, locks free)
        (
          quiet.0,
          ap (λ db. status_of job.delivery_id db.deliveries) quiet.1
              ∙ status_of-recorded _ _ _ (rw is_some-moved (selected job.delivery_id s.db found)),
          ap (λ db. db.attempts) quiet.1 ∙ rw (attempts-recorded, attempts-moved) refl,
          quiet.2,
        )
    where
      delivers :
          process_locked c k job (i.token 0) (smooth i) locked_run ≡ (ok tt, delivered_run d tokens)
      delivers =
          process_locked-found c k i job d (i.token 0) locked_run found
          ∙ process_row-closed c k i job d (i.token 0) (record locked_run { step = 2 }) open_one
              active (rw r.get-set expired) (rw r.get-set below)
          ∙ call-slot c k i job d (i.token 0) tokens _ (rw r.get-set slot)
          ∙ attempt_call-accepted c k i job d (i.token 0) _ (selected job.delivery_id s.db found)
              new calm accepted

      quiet :
          let (a, after) =
            try_finally
              (process_locked c k job (i.token 0))
              (clean_up c job.delivery_id (i.token 0))
              (smooth i)
              locked_run in
          (a ≡ ok tt)
          × (after.shared.db ≡ (delivered_run d tokens).shared.db)
          × (after.shared.posts ≡ (delivered_run d tokens).shared.posts)
      quiet =
          finally-quiet _ _ locked_run (delivered_run d tokens) delivers
            (clean_up-IsQuiet c i job.delivery_id (i.token 0) d.endpoint_id _ _)
