-- ===== src/Lib.antt =====
-- The webhook delivery engine: events are stored with their deliveries, and workers take jobs from a
-- BullMQ queue, sign and send each delivery over HTTP, record every attempt in Postgres, and retry
-- with a backoff until success or until the attempts are used up, when the delivery goes to a
-- dead-letter queue (DLQ). A reconciler adds jobs for deliveries that were left behind.
--
-- How the files correspond to the code (paths from the repository's root):
-- - Config: src/shared/config.ts, the integers that the modelled code reads, and their defaults.
-- - Redis: the keys and the commands, an interface with their documented effect, expiry included.
--   Lock is src/redis/lock.ts with src/redis/scripts/release_lock.lua and extend_lock.lua, Breaker is
--   src/redis/circuitBreaker.ts, TokenBucket is src/redis/tokenBucket.ts with
--   src/redis/scripts/token_bucket.lua.
--   Scripts is src/redis/scripts.ts, over an interface of its own for SCRIPT LOAD and EVALSHA.
--   Breaker/Circuit is the abstract view of the breaker, a timed circuit without Redis; Fields is
--   about reading back what a hash or a key was set to.
-- - Db: the tables of migrations/20260615000000_initial-schema.ts. Deliveries is
--   src/db/deliveries.repo.ts (getForDelivery, transition, claimUnenqueued, retryFromDlq) and
--   src/queue/enqueue.ts; Attempts is src/db/attempts.repo.ts; Ingest is src/db/ingest.ts. Rows
--   reads the tables after an update; Audit states the invariants I2, I3 and I5 of
--   scripts/invariants.sql, and that the newest transition of a delivery leads to its status.
--   Reads is list, listDlq and getDetail of src/db/deliveries.repo.ts.
-- - Paging: the order, the limit and the cursors that the two lists share.
-- - Memo: src/shared/memo.ts, as a machine over the calls and the settling of the pending promise.
-- - Queue: BullMQ as an interface, and src/queue/backoff.ts.
-- - Exec: programs that wait for external services, with src/db/pool.ts's withTx. Every `await` is
--   one step. Before a step all other processes may act; the step may fail, take effect and lose its
--   reply, or find the process dead. The environment fixes this for each step.
-- - Worker: src/worker: HttpClient, Signature (with src/shared/headers.ts), Heartbeat, Outcome and
--   Processor (processor.ts), DlqHandler (with src/shared/alerts.ts). Bystanders and Audit say what
--   these programs keep of the database.
-- - TestReceiver: src/test-receiver/index.ts and `verify` of src/worker/signature.ts. Accepts is about
--   signatures, Flap about the counters of /flap/:n.
-- - ExplainCheck: the search of the plans in scripts/explain-check.ts.
-- - Api: the routes. Events is src/api/routes/events.ts with
--   src/api/backpressure.ts, Dlq is src/api/routes/dlq.ts, Cursor is src/api/cursor.ts, Deliveries,
--   Endpoints and Stats are the files of these names in src/api/routes, Errors is the error handler
--   and the readiness of src/api/app.ts, with the codes of src/api/errors.ts. Audit says what the
--   routes that write deliveries keep of the database. Query is the schema of the query string of
--   src/api/routes/deliveries.ts.
-- - Dashboard: the screens of dashboard/src that hold a state, as machines over what is rendered,
--   polled, clicked and answered. Filters is components/Filters.tsx with the query string of
--   api.ts, and Filters/Asked what the API reads of it; Table is components/DeliveryTable.tsx, DlqView
--   is components/DlqView.tsx, which DlqView/Retry puts on top of the API.
-- - Engine: the calls of all processes that write the database, the tick of src/reconciler/index.ts
--   and the changes of endpoints among them, and schedules of concurrent calls.
-- - Tests: a Redis and a queue in memory, a small world, and the theorems at concrete inputs.
--
-- Names are the source's in the spelling of this library: processDelivery is process_delivery,
-- 'LOCK_LOST' is lock_lost. A uuid and a lock token stand as numbers, times as milliseconds, a jsonb
-- payload as its text. `Math.random()` is a number of 53 bits over 2 ^ 53. Differences of times stop
-- at 0. A transaction of Postgres is one atomic step: its statements lock the one row that they
-- write, and a failed one leaves no trace. The sweep of the reconciler is one step as well, since its
-- rows stay locked until it commits; the jobs that it added stay added where it is rolled back.
-- An aborted request counts as answered or failed, as the environment says. The ticks of the
-- heartbeat run between the sending of a request and its answer; the environment gives their number.
--
-- Fuel occurs in two places: writing a number in decimal divides by ten, with one unit more than the
-- number itself, which is more than it has digits; and a client of the lists has fuel for its
-- requests, of which it needs at most one more than there are deliveries.
--
-- The environment variable CRASH_AFTER_COMMIT of POST /v1/events is one more place where a process
-- may die. The cache entry of an ingested event is written before the reply of that command comes.
--
-- Times in the lists stay as the tables have them; how the driver and Postgres read times and texts
-- is a parameter (Casts), and so are base64 and the text of JSON (CursorCodec).
--
-- The dashboard gets the very rows and errors that the API answered with: the transport as JSON
-- loses nothing. What zod makes of the texts of a query string (QueryReader) and how a browser writes a
-- local time as ISO text (to_iso) are parameters.
--
-- Not modelled: what the dashboard draws, its detail panel, tiles and tabs; logging and start-up,
-- signal handlers, and the other scripts.
-- JSON.stringify and the HMAC are parameters (Codec), as are timingSafeEqual (Platform), Redis and
-- BullMQ, whose laws the instances in Tests meet.
pub mod Prelude
pub mod Config
pub mod Redis
pub mod Db
pub mod Queue
pub mod Exec
pub mod Paging
pub mod Memo
pub mod ExplainCheck
pub mod Worker
pub mod TestReceiver
pub mod Api
pub mod Dashboard
pub mod Engine
pub mod Tests
