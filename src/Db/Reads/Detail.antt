-- ===== src/Db/Reads/Detail.antt =====
-- db/deliveries.repo.ts: `getDetail`.
pub mod Audited
use webhook_delivery_engine.Prelude.{
  none, ◌++◌, ◌==◌, ltb, [], if◌then◌else◌, some, ◌∷◌, Option, String, List, ℕ,
}
use webhook_delivery_engine.Db.{
  find_endpoint, Reason, Endpoint, find_event, Actor, find_delivery, ErrorMessage, Event, Status,
  AttemptOutcome, Attempt, Db, Transition, Delivery,
}
use webhook_delivery_engine.Redis.{Redis}
use webhook_delivery_engine.Queue.{Bull}
use webhook_delivery_engine.Exec.{query, ◌>>=◌, pure, M}

pub record AttemptDetail : Type 0 where
  pub attempt_number : ℕ
  pub outcome : AttemptOutcome
  pub http_status : Option ℕ
  pub response_body : Option (List ℕ)
  pub error_message : Option ErrorMessage
  pub latency_ms : ℕ
  pub started_at : ℕ
  pub finished_at : ℕ

pub record TransitionDetail : Type 0 where
  pub from_status : Option Status
  pub to_status : Status
  pub actor : Actor
  pub reason : Reason
  pub created_at : ℕ

pub record EventDetail : Type 0 where
  pub id : ℕ
  pub event_type : String
  pub payload : String
  pub received_at : ℕ

pub record EndpointDetail : Type 0 where
  pub id : ℕ
  pub url : String

pub record DeliveryDetail : Type 0 where
  pub id : ℕ
  pub status : Status
  pub attempt_count : ℕ
  pub next_attempt_at : Option ℕ
  pub created_at : ℕ
  pub updated_at : ℕ
  pub event : EventDetail
  pub endpoint : EndpointDetail
  pub attempts : List AttemptDetail
  pub transitions : List TransitionDetail

-- The columns of the first query, before those of the other two are there.
abbrev pub joined_detail : Delivery → Event → Endpoint → DeliveryDetail
joined_detail d ev e = record {
  id = d.id;
  status = d.status;
  attempt_count = d.attempt_count;
  next_attempt_at = d.next_attempt_at;
  created_at = d.created_at;
  updated_at = d.updated_at;
  event = record {
    id = ev.id;
    event_type = ev.event_type;
    payload = ev.payload;
    received_at = ev.received_at;
  };
  endpoint = record { id = e.id; url = e.url };
  attempts = [];
  transitions = [];
}

-- The inner joins.
abbrev pub detail_row : Delivery → Option Event → Option Endpoint → Option DeliveryDetail
detail_row d none _ = none
detail_row d (some ev) none = none
detail_row d (some ev) (some e) = some (joined_detail d ev e)

abbrev pub detail_of : Option Delivery → Db → Option DeliveryDetail
detail_of none db = none
detail_of (some d) db =
    detail_row d (find_event d.event_id db.events) (find_endpoint d.endpoint_id db.endpoints)

unfoldable pub select_detail : ℕ → Db → Option DeliveryDetail
select_detail id db = detail_of (find_delivery id db.deliveries) db

abbrev pub attempt_detail : Attempt → AttemptDetail
attempt_detail a = record {
  attempt_number = a.attempt_number;
  outcome = a.outcome;
  http_status = a.http_status;
  response_body = a.response_body;
  error_message = a.error_message;
  latency_ms = a.latency_ms;
  started_at = a.started_at;
  finished_at = a.finished_at;
}

-- ORDER BY attempt_number ASC
unfoldable pub insert_by_number : AttemptDetail → List AttemptDetail → List AttemptDetail
insert_by_number a [] = a ∷ []
insert_by_number a (x ∷ xs) =
    let rest = insert_by_number a xs in
    if ltb x.attempt_number a.attempt_number then x ∷ rest else a ∷ x ∷ xs

unfoldable pub select_attempts : ℕ → List Attempt → List AttemptDetail
unfolding insert_by_number
select_attempts id [] = []
select_attempts id (a ∷ rows) =
    let rest = select_attempts id rows in
    if a.delivery_id == id then insert_by_number (attempt_detail a) rest else rest

abbrev pub transition_detail : Transition → TransitionDetail
transition_detail t = record {
  from_status = t.from_status;
  to_status = t.to_status;
  actor = t.actor;
  reason = t.reason;
  created_at = t.created_at;
}

-- ORDER BY id ASC: the oldest row first.
unfoldable pub select_transitions : ℕ → List Transition → List TransitionDetail
select_transitions id [] = []
select_transitions id (t ∷ rows) =
    let rest = select_transitions id rows in
    if t.delivery_id == id then rest ++ (transition_detail t ∷ []) else rest

module _ {r : Redis} {b : Bull} where
  -- The two queries of `Promise.all`, one after the other.
  abbrev pub with_history : ℕ → Option DeliveryDetail → M r b (Option DeliveryDetail)
  with_history id none = pure none
  with_history id (some row) = do
    attempts ← query λ db. select_attempts id db.attempts
    transitions ← query λ db. select_transitions id db.transitions
    pure (some (record row { attempts = attempts; transitions = transitions }))

  unfoldable pub get_detail : ℕ → M r b (Option DeliveryDetail)
  unfolding select_detail select_attempts select_transitions
  get_detail id = do row ← query (select_detail id); with_history id row
