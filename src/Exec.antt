-- ===== src/Exec.antt =====
-- Programs that wait for external services. Each `await` is one command: before it takes effect
-- everybody else may have acted, and it may fail, lose its reply, or the process may die. The
-- environment fixes all of this for each step, and theorems range over environments.
pub mod Keeps
use webhook_delivery_engine.Prelude.{ℕ, ◌+◌, Bool, false, Option, none, List, String}
use webhook_delivery_engine.Db.{Db, Status, Reason, AttemptOutcome, ErrorMessage}
use webhook_delivery_engine.Redis.{Redis}
use webhook_delivery_engine.Queue.{Bull}

-- What a library throws: whether it is an `Error`, and its `name`, `message` and `code`.
pub record Thrown : Type 0 where
  pub is_error : Bool
  pub name : String
  pub message : String
  pub code : Option String

-- DeliverErrorKind
pub data DeliverErrorKind : Type 0 where
  timeout conn_error : DeliverErrorKind

-- The codes of the AppErrors of the modelled routes.
pub data ErrorCode : Type 0 where
  backpressure idempotency_key_missing idempotency_key_too_long payload_too_large : ErrorCode
  validation_error endpoint_not_found storage_unavailable endpoint_inactive : ErrorCode
  delivery_not_found invalid_cursor invalid_url : ErrorCode
  -- With the detail `current_status`.
  not_in_dlq : Status → ErrorCode

pub data Failure : Type 0 where
  -- AppError(statusCode, code)
  app_error : ℕ → ErrorCode → Failure
  -- DelayedError
  delayed : Failure
  -- Error(reason), which makes BullMQ schedule a retry
  attempt_failed : Reason → Failure
  deliver_error : DeliverErrorKind → String → Failure
  thrown : Thrown → Failure
  -- A statement that a constraint of the schema refuses.
  violation : Failure
  -- The process is gone: nothing catches it.
  crashed : Failure

pub data Result {ℓ} (A : Type ℓ) : Type ℓ where
  ok : A → Result A
  err : Failure → Result A

pub data Fault : Type 0 where
  fine dies : Fault
  refused reply_lost : Thrown → Fault

-- The request that `deliver` sends.
pub record WebhookHeaders : Type 0 where
  pub webhook_id : ℕ
  pub attempt : ℕ
  pub timestamp : ℕ
  pub signature : String

pub record Post : Type 0 where
  pub url : String
  pub body : String
  pub headers : WebhookHeaders

pub record LastAttemptSummary : Type 0 where
  pub attempt_number : ℕ
  pub outcome : AttemptOutcome
  pub http_status : Option ℕ
  pub error_message : Option ErrorMessage

-- The DLQ alert: the delivery, where it went, and its last attempt.
pub record DlqAlert : Type 0 where
  pub delivery_id : ℕ
  pub endpoint_url : String
  pub last_attempt : Option LastAttemptSummary

-- What all processes share: the stores, and what has left the system. `posts` has every call of undici's
-- `request` for a delivery, whether or not a connection comes about.
pub record Shared (r : Redis) (b : Bull) : Type 0 where
  pub db : Db
  pub redis : r.State
  pub queue : b.State
  pub dlq_queue : b.State
  pub posts : List Post
  pub alerts : List DlqAlert

-- What the outside gives to a process, step by step.
pub record Inputs : Type 0 where
  -- `Date.now()` and `now()`, the bits of `Math.random()`, the bytes of a lock token
  pub time : ℕ → ℕ
  pub random : ℕ → ℕ
  pub token : ℕ → ℕ
  -- What `gen_random_uuid()` gives for an endpoint, an event and a delivery.
  pub endpoint_uuid : ℕ → ℕ
  pub event_uuid : ℕ → ℕ
  pub delivery_uuid : ℕ → ℕ
  -- The receiver's status and body, and the heartbeat ticks before it answers.
  pub response : ℕ → ℕ × List ℕ
  pub beats : ℕ → ℕ
  -- The queue's counts of the states `wait` and `delayed`, as the cache has them.
  pub job_counts : ℕ → Option ℕ × Option ℕ
  -- At a step of the reconciler: the rows that others have locked, and the additions that fail.
  pub locked : ℕ → ℕ → Bool
  pub add_fails : ℕ → ℕ → Option Thrown
  pub faults : ℕ → Fault

pub record Env (r : Redis) (b : Bull) : Type 0 where
  pub inputs : Inputs
  pub open inputs use *
  pub others : ℕ → Shared r b → Shared r b

-- A process: the shared state, its step, and the two variables of `processDelivery` that its
-- `finally` reads.
pub record Run (r : Redis) (b : Bull) : Type 0 where
  pub shared : Shared r b
  pub step : ℕ
  pub endpoint_id : Option ℕ
  pub bucket_acquired : Bool

module _ {r : Redis} {b : Bull} where
  -- A process that nobody disturbs.
  abbrev pub calm : Inputs → Env r b
  calm i = record { inputs = i; others = λ step s. s }

  -- Nobody disturbs it, and no command fails.
  abbrev pub smooth : Inputs → Env r b
  smooth i = calm (record i { faults = λ _. fine })

  abbrev pub start : Shared r b → Run r b
  start s = record { shared = s; step = 0; endpoint_id = none; bucket_acquired = false }

  abbrev advance : Run r b → Shared r b → Run r b
  advance run s = record run { shared = s; step = run.step + 1 }

  -- One command at time `now`, unless it is refused or the process dies first.
  abbrev perform :
      {A : Type 0}
      → Fault
      → (ℕ → Shared r b → Result A × Shared r b)
      → ℕ
      → Shared r b
      → Result A × Shared r b
  perform fine f now s = f now s
  perform dies f now s = (err crashed, s)
  perform (refused t) f now s = (err (thrown t), s)
  perform (reply_lost t) f now s = (err (thrown t), (f now s).1)

-- What a `catch` sees: a death is not caught.
abbrev pub captured : {A : Type 0} → Result A → Result (Result A)
captured (ok a) = ok (ok a)
captured (err crashed) = err crashed
captured (err f) = ok (err f)

-- What a transaction leaves: its own result, or the database as it was.
abbrev pub db_after : {A : Type 0} → Db → Result (A × Db) → Db
db_after db (ok (a, db')) = db'
db_after db (err f) = db

abbrev pub M : (r : Redis) (b : Bull) → Type 0 → Type 0
M r b A = Env r b → Run r b → Result A × Run r b

module _ {r : Redis} {b : Bull} where
  unfoldable pub await : {A : Type 0} → (ℕ → Shared r b → Result A × Shared r b) → M r b A
  await f e run =
      let (a, s) = perform (e.faults run.step) f (e.time run.step) (e.others run.step run.shared) in
      (a, advance run s)

  unfoldable pub pure : {A : Type 0} → A → M r b A
  pure a e run = (ok a, run)

  unfoldable pub throw : {A : Type 0} → Failure → M r b A
  throw f e run = (err f, run)

  -- Date.now() and new Date()
  unfoldable pub date_now : M r b ℕ
  date_now e run = (ok (e.time run.step), run)

  -- What the environment has for this step.
  unfoldable pub asks : {A : Type 0} → (Env r b → ℕ → A) → M r b A
  asks f e run = (ok (f e run.step), run)

  -- What happens at once, with no wait.
  unfoldable pub emit : (Shared r b → Shared r b) → M r b (Unit {0})
  emit f e run = (ok tt, record run { shared = f run.shared })

  unfoldable pub set_endpoint_id : ℕ → M r b (Unit {0})
  set_endpoint_id id e run = (ok tt, record run { endpoint_id = Option.some id })

  unfoldable pub set_bucket_acquired : Bool → M r b (Unit {0})
  set_bucket_acquired flag e run = (ok tt, record run { bucket_acquired = flag })

  unfoldable pub get_locals : M r b (Option ℕ × Bool)
  get_locals e run = (ok (run.endpoint_id, run.bucket_acquired), run)

  abbrev pub continue : {A B : Type 0} → Result A → (A → M r b B) → M r b B
  continue (ok a) k e run = k a e run
  continue (err f) k e run = (err f, run)

  infixl 5 ◌>>=◌ ◌>>◌
  unfoldable pub ◌>>=◌ : {A B : Type 0} → M r b A → (A → M r b B) → M r b B
  ◌>>=◌ m k e run = let (a, run') = m e run in continue a k e run'

  abbrev pub ◌>>◌ : {B : Type 0} → M r b (Unit {0}) → M r b B → M r b B
  m >> k = m >>= λ _. k

  unfoldable pub capture : {A : Type 0} → M r b A → M r b (Result A)
  capture m e run = let (a, run') = m e run in (captured a, run')

  -- `finally`: its own failure replaces the outcome, and a dead process does not get there.
  abbrev pub finish : {A : Type 0} → Result A → M r b (Unit {0}) → M r b A
  finish (err crashed) f e run = (err crashed, run)
  finish a f e run = let (u, run') = f e run in (elim u [ ok _ ↦ a | err x ↦ err x ], run')

  unfoldable pub try_finally : {A : Type 0} → M r b A → M r b (Unit {0}) → M r b A
  try_finally m f e run = let (a, run') = m e run in finish a f e run'

  -- withTx: the statements of the body take effect together, or not at all.
  abbrev pub committed : {A : Type 0} → Result (A × Db) → Shared r b → Result A × Shared r b
  committed (ok (a, db)) s = (ok a, record s { db = db })
  committed (err f) s = (err f, s)

  unfoldable pub with_tx : {A : Type 0} → (ℕ → Db → Result (A × Db)) → M r b A
  with_tx body = await λ now s. committed (body now s.db) s

  -- pool.query of a SELECT
  unfoldable pub query : {A : Type 0} → (Db → A) → M r b A
  query f = await λ now s. (ok (f s.db), s)

  unfoldable pub redis_command : {A : Type 0} → (ℕ → r.State → A × r.State) → M r b A
  redis_command f = await λ now s. let (a, t) = f now s.redis in (ok a, record s { redis = t })

  unfoldable pub queue_command : (b.State → b.State) → M r b (Unit {0})
  queue_command f = await λ now s. (ok tt, record s { queue = f s.queue })

  unfoldable pub dlq_command : (b.State → b.State) → M r b (Unit {0})
  dlq_command f = await λ now s. (ok tt, record s { dlq_queue = f s.dlq_queue })
