-- ===== src/Worker/Processor/Postponed.antt =====
-- What a job leaves alone that makes no attempt.
use webhook_delivery_engine.Prelude.{
  ◌^◌, ◌/◌, ◌*◌, ℕ, ◌+◌, ◌≡◌, refl, true, false, ◌||◌, none, some, ◌⊎◌, inl, inr,
}
use webhook_delivery_engine.Config.{Config}
use webhook_delivery_engine.Redis.{Redis, lock_key, open_key, fails_key, bucket_key}
use webhook_delivery_engine.Redis.Lock.{acquire}
use webhook_delivery_engine.Redis.Breaker.{check_state, reaches}
use webhook_delivery_engine.Redis.TokenBucket.{try_acquire, token_bucket, take_token}
use webhook_delivery_engine.Queue.{Bull, Job}
use webhook_delivery_engine.Db.{delivered, dlq, status_eq}
use webhook_delivery_engine.Db.Deliveries.{DeliveryForWorker, get_for_delivery, select_for_delivery}
use webhook_delivery_engine.Exec.{
  Inputs, Shared, Result, ok, err, delayed, smooth, start, pure, throw, asks, await, query,
  date_now, try_finally, redis_command, queue_command, set_endpoint_id, set_bucket_acquired,
  get_locals, ◌>>=◌,
}
use webhook_delivery_engine.Worker.Signature.{Codec}
use webhook_delivery_engine.Worker.Processor.{
  process_delivery, process_locked, process_row, clean_up, postpone, rate_limited_call,
  lock_contention_delay_ms,
}

module _ {r : Redis} {b : Bull} (c : Config) (k : Codec) (i : Inputs) (job : Job)
    (s : Shared r b) where
  abbrev pub outcome : Result (Unit {0})
  outcome = (process_delivery c k job (smooth i) (start s)).0

  abbrev pub left : Shared r b
  left = (process_delivery c k job (smooth i) (start s)).1.shared

  -- An undisturbed worker that finds the delivery locked puts its job off by five seconds and touches
  -- nothing else: no row, no request, no Redis key.
  pub process_delivery-locked :
      {token : ℕ}
      → r.get (i.time 0) (lock_key job.delivery_id) s.redis ≡ some token
      → (outcome ≡ err delayed)
        × (left ≡ record s {
          queue = b.move_to_delayed job.id (i.time 1 + lock_contention_delay_ms) s.queue;
        })
  unfolding process_delivery acquire postpone redis_command queue_command await asks date_now throw
      ◌>>=◌
  process_delivery-locked held = rw (outcome, left, r.set_nx_held _ _ _ _ _ held) (refl, refl)

  -- An undisturbed job that gets the lock of a delivery that is DELIVERED or in DLQ ends without an
  -- error and without a request, and the database and the queues stay as they are.
  pub process_delivery-settled :
      (d : DeliveryForWorker)
      → r.get (i.time 0) (lock_key job.delivery_id) s.redis ≡ none
      → select_for_delivery job.delivery_id s.db ≡ some d
      → (status_eq d.status delivered || status_eq d.status dlq) ≡ true
      → (outcome ≡ ok tt)
        × (left.db ≡ s.db)
        × (left.posts ≡ s.posts)
        × (left.queue ≡ s.queue)
        × (left.dlq_queue ≡ s.dlq_queue)
  unfolding process_delivery acquire process_locked process_row get_for_delivery query try_finally
      clean_up get_locals redis_command await asks pure ◌>>=◌
  process_delivery-settled d free found settled =
      rw (outcome, left, r.set_nx_free _ _ _ _ _ free)
        (rw (found, settled) (refl, refl, refl, refl, refl))

  -- An undisturbed job that gets the lock of an open delivery whose endpoint is switched off, or has
  -- its breaker closed and no delivery slot left, is moved to the delayed jobs, by a minute in the first
  -- case and by three to seven seconds in the second, and fails with DelayedError; there is no request,
  -- and the database stays as it is.
  pub process_delivery-postponed :
      (d : DeliveryForWorker)
      → r.get (i.time 0) (lock_key job.delivery_id) s.redis ≡ none
      → select_for_delivery job.delivery_id s.db ≡ some d
      → (status_eq d.status delivered || status_eq d.status dlq) ≡ false
      → (d.endpoint_active ≡ false)
        ⊎ ((d.endpoint_active ≡ true)
            × (r.get (i.time 2) (open_key d.endpoint_id) s.redis ≡ none)
            × (reaches c.cb_fail_threshold (r.get (i.time 3) (fails_key d.endpoint_id) s.redis)
                ≡ false)
            × (r.get (i.time 4) (bucket_key d.endpoint_id) s.redis ≡ some 0))
      → (outcome ≡ err delayed)
        × (left.db ≡ s.db)
        × (left.posts ≡ s.posts)
        × (d.endpoint_active ≡ false
            → left.queue ≡ b.move_to_delayed job.id (i.time 2 + 60_000) s.queue)
        × (d.endpoint_active ≡ true
            → left.queue
              ≡ b.move_to_delayed job.id (i.time 5 + (3_000 + i.random 5 * 4_000 / 2 ^ 53)) s.queue)
  unfolding process_delivery acquire process_locked process_row get_for_delivery query try_finally
      clean_up get_locals redis_command await asks pure ◌>>=◌ throw postpone date_now queue_command
      set_endpoint_id set_bucket_acquired check_state rate_limited_call try_acquire token_bucket
      take_token
  process_delivery-postponed d free found open_one (inl inactive) =
      rw (outcome, left, r.set_nx_free _ _ _ _ _ free)
        (rw (found, open_one) (rw inactive (refl, refl, refl, (λ off. refl), (λ on. absurd (cc)))))
  process_delivery-postponed d free found open_one (inr (active, closed, below, full)) =
      rw (outcome, left, r.set_nx_free _ _ _ _ _ free)
        (rw (found, open_one)
          (rw active (
            rw (r.get-set, closed, r.get-set, below)
              (rw (r.get-set, full) (refl, refl, refl, (λ off. absurd cc), (λ on. refl))))))
