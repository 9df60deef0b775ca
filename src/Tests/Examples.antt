-- ===== src/Tests/Examples.antt =====
-- The theorems at concrete inputs.
use webhook_delivery_engine.Prelude.{
  ◌<◌, Any, Option, ℕ, ◌+◌, ◌*◌, ◌≡◌, ◌≢◌, ◌≤◌, refl, true, false, none, some, List, [], ◌∷◌, arith,
  inl, length,
}
use webhook_delivery_engine.Config.{defaults}
use webhook_delivery_engine.Redis.{lock_key}
use webhook_delivery_engine.Redis.Lock.{LockCall, acquires, releases, extends, acquire, lock_run}
use webhook_delivery_engine.Redis.Lock.Lease.{lease_run, lock_run-lease_run}
use webhook_delivery_engine.Redis.Lock.Exclusion.{acquire_exclusive, refusals}
use webhook_delivery_engine.Db.{
  AttemptOutcome, Attempt, Db, delivering, dlq, pending, find_delivery, find_endpoint, find_event,
  insert_attempt, insert_transition, has_attempt, update_delivery,
}
use webhook_delivery_engine.Db.Rows.{status_of, attempt_count_of}
use webhook_delivery_engine.Db.Audit.{IsAudited}
use webhook_delivery_engine.Db.Attempts.{record_attempt_tx}
use webhook_delivery_engine.Db.Attempts.Once.{record_attempt_tx-once}
use webhook_delivery_engine.Db.Deliveries.{
  claim_tx, claim_rows, is_stuck, for_worker, stuck_ids, retry_tx, not_in_dlq, select_for_delivery,
}
use webhook_delivery_engine.Db.Deliveries.Claim.{claim_tx-IsClaim, IsClaim}
use webhook_delivery_engine.Db.Deliveries.Retry.{retry_tx-retry_tx, retry_result}
use webhook_delivery_engine.Db.Ingest.{
  IngestParams, IngestResult, ingest_tx, insert_new, event_of_key, has_delivery,
}
use webhook_delivery_engine.Db.Ingest.Once.{ingest_tx-once}
use webhook_delivery_engine.Queue.{original, webhook_backoff, backoff_base}
use webhook_delivery_engine.Queue.Backoff.{webhook_backoff-bounds}
use webhook_delivery_engine.Exec.{
  LastAttemptSummary, Inputs, Run, Shared, Result, ok, err, Failure, violation, db_after, start,
}
use webhook_delivery_engine.Worker.DlqHandler.Exhausted.{
  IsLast, handle_failed-exhausted, handle_failed-nothing, after_failure,
}
use webhook_delivery_engine.Engine.{
  Call, Schedule, processes, fails, reconciles, ingests, alone, among, program, run_calls, env_of,
  env_of-IsReliable,
}
use webhook_delivery_engine.Engine.Audit.{program-IsAudited, run_calls-IsAudited}
use webhook_delivery_engine.Tests.Memory.{memory, local_queue, empty_keys}
use webhook_delivery_engine.Tests.World.{
  seen, request, world, tables, tables-IsAudited, inputs, codec, job, last_job, first_attempt,
  with_rows, row,
}
use webhook_delivery_engine.Db.Deliveries.Stuck.{MayClaim, is_among}

-- A sweep and a second worker between the commands of the first worker.
abbrev crowd : Schedule
crowd = among (λ step. (reconciles, inputs) ∷ (processes job, inputs) ∷ []) alone

abbrev calls : List (Call × Inputs)
calls = (ingests request, inputs) ∷ (processes job, inputs) ∷ (fails (some last_job), inputs) ∷ []

run_calls-IsAudited_example :
    let db' = (run_calls defaults codec (env_of defaults codec crowd) calls world).db in
    IsAudited db' × (attempt_count_of 7 tables.deliveries ≤ attempt_count_of 7 db'.deliveries)
run_calls-IsAudited_example =
    run_calls-IsAudited defaults codec crowd calls world 7 tables-IsAudited

program-IsAudited_example :
    let db' =
      (program defaults codec
        (processes job)
        (env_of defaults codec crowd inputs)
        (start world)).1.shared.db in
    IsAudited db' × (attempt_count_of 7 tables.deliveries ≤ attempt_count_of 7 db'.deliveries)
program-IsAudited_example =
    program-IsAudited (env_of defaults codec crowd inputs)
      (env_of-IsReliable defaults codec crowd inputs) defaults codec (processes job) (start world) 7
      tables-IsAudited

abbrev contenders : List (ℕ × LockCall)
contenders = (10, acquires 6) ∷ (20, releases 6) ∷ (59_999, extends 6) ∷ []

acquire_exclusive_example :
    let (a, held) = acquire memory defaults 0 7 5 empty_keys in
    (a.acquired ≡ true)
    × ((lock_run memory defaults 7 contenders held).0 ≡ refusals contenders)
    × (memory.get 50_000 (lock_key 7) (lock_run memory defaults 7 contenders held).1 ≡ some 5)
acquire_exclusive_example =
    acquire_exclusive memory defaults 7 0 50_000 5 contenders empty_keys refl (omega arith) (
      (omega arith, λ e. absurd (omega (arith, e))),
      (
        (omega arith, λ e. absurd (omega (arith, e))),
        ((omega arith, λ e. absurd (omega (arith, e))), tt),
      ),
    )

abbrev visits : List (ℕ × LockCall)
visits =
    (10, acquires 5)
    ∷ (20, acquires 6)
    ∷ (30, extends 5)
    ∷ (60_029, releases 5)
    ∷ (70_000, acquires 6)
    ∷ []

lock_run-lease_run_example :
    (lock_run memory defaults 7 visits empty_keys).0
    ≡ (lease_run defaults.lock_ttl_ms visits none).0
lock_run-lease_run_example =
    lock_run-lease_run memory defaults 7 0 visits empty_keys none (λ t later. refl)
      (omega arith, (omega arith, (omega arith, (omega arith, (omega arith, tt)))))

abbrev params : IngestParams
params = record {
  client_id = "acme";
  idempotency_key = "k2";
  event_type = "order.paid";
  payload = "{}";
  endpoint_id = 1;
}

abbrev ingested : Db
ingested = db_after tables (ingest_tx params 4 8 500 tables)

abbrev ingestion : IngestResult
ingestion = record { event_id = 4; delivery_id = 8; delivery_status = pending; is_new = true }

ingested_lem : ingest_tx params 4 8 500 tables ≡ ok (ingestion, ingested)
unfolding ingest_tx insert_new event_of_key find_event find_delivery find_endpoint has_delivery
    insert_transition
ingested_lem = refl

ingest_tx-once_example :
    ingest_tx (record params { payload = "[]" }) 5 9 600 ingested
    ≡ ok (record ingestion { is_new = false }, ingested)
ingest_tx-once_example =
    ingest_tx-once params (record params { payload = "[]" }) 4 8 500 5 9 600 tables ingested
      ingestion ingested_lem refl refl

abbrev recorded : Db
recorded = db_after tables (record_attempt_tx first_attempt 10_000 tables)

recorded_lem : record_attempt_tx first_attempt 10_000 tables ≡ ok (tt, recorded)
unfolding record_attempt_tx insert_attempt insert_transition has_attempt update_delivery
    find_delivery
recorded_lem = refl

recorded_twice_lem :
    record_attempt_tx (record first_attempt { latency_ms = 3 }) 11_000 recorded ≡ err violation
recorded_twice_lem =
    record_attempt_tx-once first_attempt (record first_attempt { latency_ms = 3 }) 10_000 11_000
      tables recorded recorded_lem refl refl

abbrev swept : Result ℕ × Shared memory local_queue
swept = claim_tx 60 500 (λ id. false) (λ id. none) 70_000 world

claim_tx-IsClaim_example :
    ((n : ℕ)
      → swept.0 ≡ ok n
      → (ids : List ℕ) × (n ≡ length ids)
        × (n ≤ 500)
        × ((id : ℕ)
            → is_among id ids ≡ true
            → Any (MayClaim 60 70_000 (λ j. false) id) tables.deliveries)
        × (n < 500
            → (id : ℕ) → Any (MayClaim 60 70_000 (λ j. false) id) tables.deliveries
            → is_among id ids ≡ true)
        × IsClaim ids 70_000 world swept.1)
    × ((f : Failure) → swept.0 ≡ err f → swept.1.db ≡ tables)
claim_tx-IsClaim_example = claim_tx-IsClaim 60 500 (λ id. false) (λ id. none) 70_000 world

-- A sweep picks the delivery and adds its job.
swept_lem : (swept.0 ≡ ok 1) × (swept.1.queue ≡ (original 7, 7, true) ∷ [])
unfolding claim_tx stuck_ids is_stuck claim_rows
swept_lem = (refl, refl)

abbrev parked : Db
parked = record tables { deliveries = row dlq 5 ∷ [] }

abbrev unparked : Db
unparked = db_after parked (retry_tx 7 80_000 parked)

retry_tx-retry_tx_example :
    (retry_tx 7 80_000 parked ≡ ok (retry_result (status_of 7 parked.deliveries), unparked))
    × (status_of 7 parked.deliveries ≡ some dlq
        → (status_of 7 unparked.deliveries ≡ some pending)
          × (retry_tx 7 80_500 unparked ≡ ok (not_in_dlq pending, unparked)))
    × (status_of 7 parked.deliveries ≢ some dlq → unparked ≡ parked)
retry_tx-retry_tx_example = retry_tx-retry_tx 7 80_000 80_500 parked

webhook_backoff-bounds_example :
    (30_000 ≤ 2 * webhook_backoff defaults 4_000_000 2 + 1)
    × (webhook_backoff defaults 4_000_000 2 ≤ 30_000)
unfolding backoff_base
webhook_backoff-bounds_example = webhook_backoff-bounds defaults 4_000_000 2 (omega arith)

-- Two of the attempts of delivery 7, the newest row first, and one of another delivery.
abbrev tried : ℕ → ℕ → ℕ → Attempt
tried delivery_id attempt_number status = record {
  delivery_id = delivery_id;
  attempt_number = attempt_number;
  outcome = AttemptOutcome.http_error;
  http_status = some status;
  response_body = none;
  error_message = none;
  latency_ms = 5;
  started_at = 0;
  finished_at = 5;
}

abbrev failing : Run memory local_queue
failing =
    let s = with_rows (row delivering 4 ∷ []) in
    start (record s {
      db = record s.db { attempts = tried 8 9 500 ∷ tried 7 5 503 ∷ tried 7 4 502 ∷ [] };
    })

seen_lem : select_for_delivery 7 failing.shared.db ≡ some seen
unfolding select_for_delivery for_worker find_delivery find_endpoint find_event
seen_lem = refl

abbrev failed_world : Shared memory local_queue
failed_world = after_failure defaults inputs last_job failing

handle_failed-exhausted_example :
    (status_of 7 failed_world.db.deliveries ≡ some dlq)
    × (failed_world.dlq_queue ≡ local_queue.add (original 7) 7 [])
    × ((last : Option LastAttemptSummary) × IsLast 7 failing.shared.db.attempts last
        × (failed_world.alerts
            ≡ record {
              delivery_id = 7;
              endpoint_url = "https://acme.test/hook";
              last_attempt = last;
            }
              ∷ []))
handle_failed-exhausted_example =
    handle_failed-exhausted defaults inputs last_job failing seen (omega arith) seen_lem refl

handle_failed-nothing_example : after_failure defaults inputs job failing ≡ failing.shared
handle_failed-nothing_example = handle_failed-nothing defaults inputs job failing (inl refl)
