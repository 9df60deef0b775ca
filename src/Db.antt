-- ===== src/Db.antt =====
-- migrations/20260615000000_initial-schema.ts: the tables, as lists of rows, and the statements that
-- several parts share. A uuid stands as its number, a timestamp as milliseconds, a jsonb payload as
-- its text.
pub mod Deliveries
pub mod Attempts
pub mod Rows
pub mod Audit
pub mod Ingest
pub mod Reads
use webhook_delivery_engine.Prelude.{
  ℕ, ◌≡◌, Bool, true, false, ◌==◌, ◌&&◌, not, if◌then◌else◌, is_some, Option, none, some, List, [],
  ◌∷◌, String,
}

pub data Status : Type 0 where
  pending delivering delivered failed dlq : Status

pub Status-discrete : Discrete Status
Status-discrete = hlevel

abbrev pub status_eq : Status → Status → Bool
status_eq pending pending = true
status_eq delivering delivering = true
status_eq delivered delivered = true
status_eq failed failed = true
status_eq dlq dlq = true
status_eq _ _ = false

-- The CHECK on `delivery_attempts.outcome`.
pub data AttemptOutcome : Type 0 where
  success http_error timeout conn_error circuit_open lock_lost : AttemptOutcome

pub data Actor : Type 0 where
  worker api reconciler manual_retry_api : Actor

-- The texts that the code writes as the reason of a transition: 'created', `attempt_{n}`,
-- 'circuit_open', 'lock_lost', `http_{status}`, `timeout_{ms/1000}s`, 'conn_error',
-- 'attempts_exhausted', 'manual_retry'.
pub data Reason : Type 0 where
  created circuit_open lock_lost conn_error attempts_exhausted manual_retry : Reason
  attempt http timeout : ℕ → Reason

-- The texts of `error_message`: 'circuit_open', 'lock_lost', `HTTP {status}`, or an error's own.
pub data ErrorMessage : Type 0 where
  circuit_open lock_lost : ErrorMessage
  http : ℕ → ErrorMessage
  text : String → ErrorMessage

pub record Endpoint : Type 0 where
  pub id : ℕ
  pub client_id : String
  pub url : String
  pub signing_secret : String
  pub is_active : Bool
  pub created_at : ℕ

pub record Event : Type 0 where
  pub id : ℕ
  pub client_id : String
  pub idempotency_key : String
  pub event_type : String
  pub payload : String
  pub received_at : ℕ

pub record Delivery : Type 0 where
  pub id : ℕ
  pub event_id : ℕ
  pub endpoint_id : ℕ
  pub status : Status
  pub attempt_count : ℕ
  pub next_attempt_at : Option ℕ
  pub enqueued : Bool
  pub created_at : ℕ
  pub updated_at : ℕ

pub record Attempt : Type 0 where
  pub delivery_id : ℕ
  pub attempt_number : ℕ
  pub outcome : AttemptOutcome
  pub http_status : Option ℕ
  pub response_body : Option (List ℕ)
  pub error_message : Option ErrorMessage
  pub latency_ms : ℕ
  pub started_at : ℕ
  pub finished_at : ℕ

pub record Transition : Type 0 where
  pub delivery_id : ℕ
  pub from_status : Option Status
  pub to_status : Status
  pub reason : Reason
  pub actor : Actor
  pub created_at : ℕ

-- The two append-only tables have their newest row first: the order of their identity columns.
pub record Db : Type 0 where
  pub endpoints : List Endpoint
  pub events : List Event
  pub deliveries : List Delivery
  pub attempts : List Attempt
  pub transitions : List Transition

-- WHERE id = $1
unfoldable pub find_delivery : ℕ → List Delivery → Option Delivery
find_delivery id [] = none
find_delivery id (d ∷ ds) = if d.id == id then some d else find_delivery id ds

unfoldable pub find_endpoint : ℕ → List Endpoint → Option Endpoint
find_endpoint id [] = none
find_endpoint id (e ∷ es) = if e.id == id then some e else find_endpoint id es

unfoldable pub find_event : ℕ → List Event → Option Event
find_event id [] = none
find_event id (e ∷ es) = if e.id == id then some e else find_event id es

-- UPDATE deliveries SET ... WHERE id = $1
unfoldable pub update_delivery : ℕ → (Delivery → Delivery) → List Delivery → List Delivery
update_delivery id f [] = []
update_delivery id f (d ∷ ds) =
    let rest = update_delivery id f ds in if d.id == id then f d ∷ rest else d ∷ rest

-- Whether `uq_attempts` has the pair already.
unfoldable pub has_attempt : ℕ → ℕ → List Attempt → Bool
has_attempt id n [] = false
has_attempt id n (a ∷ as') =
    if (a.delivery_id == id) && (a.attempt_number == n) then true else has_attempt id n as'

-- INSERT INTO delivery_transitions; `none` where the foreign key refuses the row.
unfoldable pub insert_transition : Transition → Db → Option Db
insert_transition t db =
    if is_some (find_delivery t.delivery_id db.deliveries)
    then some (record db { transitions = t ∷ db.transitions })
    else none

-- INSERT INTO delivery_attempts; `none` where the foreign key or `uq_attempts` refuses the row.
unfoldable pub insert_attempt : Attempt → Db → Option Db
insert_attempt a db =
    if is_some (find_delivery a.delivery_id db.deliveries)
      && not (has_attempt a.delivery_id a.attempt_number db.attempts)
    then some (record db { attempts = a ∷ db.attempts })
    else none
