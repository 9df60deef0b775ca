-- ===== src/Tests/Processing.antt =====
-- The theorems on the processing of a job at concrete inputs.
use webhook_delivery_engine.Prelude.{
  str_eq_iff, inl, arith, ◌==◌, true, if◌then◌else◌, ◌/◌, ℕ, ◌≡◌, refl, false, some, [], ◌∷◌, inr,
}
use webhook_delivery_engine.Config.{defaults}
use webhook_delivery_engine.Redis.{open_key, bucket_key, lock_key}
use webhook_delivery_engine.Db.{
  Reason, failed, delivered, dlq, pending, find_delivery, find_endpoint, find_event, has_attempt,
}
use webhook_delivery_engine.Db.Rows.{status_of}
use webhook_delivery_engine.Db.Deliveries.{DeliveryForWorker, for_worker, select_for_delivery}
use webhook_delivery_engine.Queue.{original}
use webhook_delivery_engine.Exec.{
  DeliverErrorKind, refused, fine, Thrown, Inputs, Shared, ok, err, delayed, attempt_failed, smooth,
  start,
}
use webhook_delivery_engine.Worker.Processor.{process_delivery, outbound, attempt_call}
use webhook_delivery_engine.Worker.Processor.Delivered.{process_delivery-delivered, success_row}
use webhook_delivery_engine.Worker.Processor.Postponed
use webhook_delivery_engine.Worker.Processor.FailedFast
use webhook_delivery_engine.Worker.Processor.FailedFast.{process_delivery-failed_fast}
use webhook_delivery_engine.Worker.Processor.Postponed.{
  process_delivery-locked, process_delivery-settled, process_delivery-postponed,
}
use webhook_delivery_engine.Tests.Memory.{set, memory, local_queue, empty_keys, hset}
use webhook_delivery_engine.Tests.World.{seen, world, inputs, codec, job, with_rows, row}
use webhook_delivery_engine.Worker.Processor.LockLost.{attempt_call-lock_lost, lost_row}
use webhook_delivery_engine.Redis.Breaker.{closed}
use webhook_delivery_engine.Worker.Processor.Rejected.{process_delivery-rejected, rejected_row}
use webhook_delivery_engine.Worker.Processor.Unanswered.{IsRecordedAs, attempt_call-unanswered}
use webhook_delivery_engine.Worker.HttpClient.Timeouts.{IsTimeout}

-- The delivery before its first attempt.
abbrev fresh : DeliveryForWorker
fresh = record seen { status = pending; attempt_count = 0 }

fresh_lem : select_for_delivery 7 world.db ≡ some fresh
unfolding select_for_delivery for_worker find_delivery find_endpoint find_event
fresh_lem = refl

-- The receiver answers before the first heartbeat.
abbrev prompt : Inputs
prompt = record inputs { beats = λ n. 0 }

untried_lem : has_attempt 7 1 world.db.attempts ≡ false
unfolding has_attempt
untried_lem = refl

process_delivery-delivered_example :
    let (a, after) = process_delivery defaults codec job (smooth prompt) (start world) in
    (a ≡ ok tt)
    × (status_of 7 after.shared.db.deliveries ≡ some delivered)
    × (after.shared.db.attempts ≡ success_row defaults prompt job fresh ∷ [])
    × (after.shared.posts ≡ outbound codec 7 fresh 6 ∷ [])
process_delivery-delivered_example =
    process_delivery-delivered defaults codec prompt job world fresh 49 refl fresh_lem refl refl
      refl refl refl refl refl untried_lem

-- The receiver is down for maintenance.
abbrev unavailable : Inputs
unavailable = record prompt { response = λ n. (503, []) }

process_delivery-rejected_example :
    let (a, after) = process_delivery defaults codec job (smooth unavailable) (start world) in
    (a ≡ err (attempt_failed (Reason.http 503)))
    × (status_of 7 after.shared.db.deliveries ≡ some failed)
    × (after.shared.db.attempts ≡ rejected_row defaults unavailable job fresh ∷ [])
    × (after.shared.posts ≡ outbound codec 7 fresh 6 ∷ [])
process_delivery-rejected_example =
    process_delivery-rejected defaults codec unavailable job world fresh 49 refl fresh_lem refl refl
      refl refl refl refl refl untried_lem

-- The receiver answers with 200 after two heartbeats, and the lock of delivery 7 is gone by then.
abbrev slow : Inputs
slow = record prompt { beats = λ n. 2; response = λ n. (200, []) }

attempt_call-lock_lost_example :
    let (a, after) = attempt_call defaults codec job fresh closed 9 (smooth slow) (start world) in
    (a ≡ err (attempt_failed Reason.lock_lost))
    × (status_of 7 after.shared.db.deliveries ≡ some failed)
    × ((finished_at : ℕ) × (after.shared.db.attempts
          ≡ lost_row job fresh (slow.time 1) finished_at ∷ []))
    × (after.shared.posts ≡ outbound codec 7 fresh (slow.time 1 / 1000) ∷ [])
unfolding find_delivery
attempt_call-lock_lost_example =
    attempt_call-lock_lost defaults codec slow job fresh 9 1 (start world) refl untried_lem refl
      refl

-- What undici throws where the receiver does not answer in time: the code is not in the message.
abbrev headers_timeout : Thrown
headers_timeout = record {
  is_error = true;
  name = "HeadersTimeoutError";
  message = "Headers Timeout Error";
  code = some "UND_ERR_HEADERS_TIMEOUT";
}

abbrev silent : Inputs
silent = record prompt { faults = λ n. if n == 1 then refused headers_timeout else fine }

attempt_call-unanswered_example :
    (IsTimeout headers_timeout
      → IsRecordedAs defaults codec silent job fresh DeliverErrorKind.timeout 9
          (start world)
          headers_timeout)
    × (¬ IsTimeout headers_timeout
        → IsRecordedAs defaults codec silent job fresh DeliverErrorKind.conn_error 9
            (start world)
            headers_timeout)
unfolding find_delivery
attempt_call-unanswered_example =
    attempt_call-unanswered defaults codec silent job fresh 9 (start world) headers_timeout refl
      untried_lem refl refl refl (λ m later. ground arith)

-- It is the second case: the attempt is recorded as a connection error.
headers_timeout_lem : ¬ IsTimeout headers_timeout
headers_timeout_lem (is_error, said) = elim said [
  | inl n ↦ absurd (let e = (str_eq_iff "HeadersTimeoutError" "AbortError").1 n in cc)
  | inr (inl m) ↦ absurd cc
  | inr (inr (inl m)) ↦ absurd cc
  | inr (inr (inr m)) ↦ absurd cc
]

abbrev contended : Shared memory local_queue
contended = record world { redis = set 0 (lock_key 7) 9 60_000 empty_keys }

process_delivery-locked_example :
    (Postponed.outcome defaults codec inputs job contended ≡ err delayed)
    × (Postponed.left defaults codec inputs job contended
        ≡ record contended { queue = local_queue.move_to_delayed (original 7) 6_000 [] })
process_delivery-locked_example = process_delivery-locked defaults codec inputs job contended refl

abbrev parked_world : Shared memory local_queue
parked_world = with_rows (row dlq 5 ∷ [])

abbrev parked_row : DeliveryForWorker
parked_row = record seen { status = dlq; attempt_count = 5 }

parked_lem : select_for_delivery 7 parked_world.db ≡ some parked_row
unfolding select_for_delivery for_worker find_delivery find_endpoint find_event
parked_lem = refl

process_delivery-settled_example :
    let after = Postponed.left defaults codec inputs job parked_world in
    (Postponed.outcome defaults codec inputs job parked_world ≡ ok tt)
    × (after.db ≡ parked_world.db)
    × (after.posts ≡ [])
    × (after.queue ≡ [])
    × (after.dlq_queue ≡ [])
process_delivery-settled_example =
    process_delivery-settled defaults codec inputs job parked_world parked_row refl parked_lem refl

abbrev crowded : Shared memory local_queue
crowded = record world { redis = hset 0 (bucket_key 1) 0 empty_keys }

process_delivery-postponed_example :
    let after = Postponed.left defaults codec inputs job crowded in
    (Postponed.outcome defaults codec inputs job crowded ≡ err delayed)
    × (after.db ≡ crowded.db)
    × (after.posts ≡ [])
    × (fresh.endpoint_active ≡ false
        → after.queue ≡ local_queue.move_to_delayed job.id 62_000 crowded.queue)
    × (fresh.endpoint_active ≡ true
        → after.queue ≡ local_queue.move_to_delayed job.id 8_000 crowded.queue)
process_delivery-postponed_example =
    process_delivery-postponed defaults codec inputs job crowded fresh refl fresh_lem refl
      (inr (refl, refl, refl, refl))

abbrev opened_world : Shared memory local_queue
opened_world = record world { redis = set 0 (open_key 1) 1 60_000 empty_keys }

process_delivery-failed_fast_example :
    let after = FailedFast.left defaults codec inputs job opened_world fresh in
    (FailedFast.outcome defaults codec inputs job opened_world fresh
      ≡ err (attempt_failed Reason.circuit_open))
    × (status_of 7 after.db.deliveries ≡ some failed)
    × (after.db.attempts
        ≡ FailedFast.circuit_open_row defaults codec inputs job opened_world fresh ∷ [])
    × (after.posts ≡ [])
process_delivery-failed_fast_example =
    process_delivery-failed_fast defaults codec inputs job opened_world fresh refl fresh_lem refl
      refl refl untried_lem
