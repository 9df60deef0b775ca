-- ===== src/Db/Ingest.antt =====
-- db/ingest.ts: an event and its delivery, once for each client and idempotency key.
pub mod Once
use Prim.Native.String
use webhook_delivery_engine.Prelude.{
  ℕ, ◌*◌, ◌==◌, ◌&&◌, ◌||◌, Bool, true, false, str_eq, is_some, not, if◌then◌else◌, Option, none,
  some, List, [], ◌∷◌, String,
}
use webhook_delivery_engine.Config.{Config}
use webhook_delivery_engine.Redis.{Redis, Key, idem_key}
use webhook_delivery_engine.Queue.{Bull}
use webhook_delivery_engine.Db.{
  Db, Event, Delivery, Status, pending, api, Reason, find_delivery, find_endpoint, find_event,
  insert_transition,
}
use webhook_delivery_engine.Exec.{
  M, Result, ok, err, violation, thrown, Thrown, pure, asks, query, capture, redis_command, with_tx,
  ◌>>=◌, ◌>>◌,
}

pub record IngestParams : Type 0 where
  pub client_id : String
  pub idempotency_key : String
  pub event_type : String
  pub payload : String
  pub endpoint_id : ℕ

pub record IngestResult : Type 0 where
  pub event_id : ℕ
  pub delivery_id : ℕ
  pub delivery_status : Status
  pub is_new : Bool

-- `wh:idem:${client_id}:${idempotency_key}`
abbrev pub idem_redis_key : IngestParams → Key
idem_redis_key p = idem_key (String.◌++◌ p.client_id (String.◌++◌ ":" p.idempotency_key))

-- SELECT ... FROM deliveries WHERE event_id = $1 LIMIT 1
unfoldable pub delivery_of_event : ℕ → List Delivery → Option Delivery
delivery_of_event event_id [] = none
delivery_of_event event_id (d ∷ ds) =
    let rest = delivery_of_event event_id ds in if d.event_id == event_id then some d else rest

-- Whether `uq_deliveries_event_endpoint` has the pair already.
unfoldable pub has_delivery : ℕ → ℕ → List Delivery → Bool
has_delivery event_id endpoint_id [] = false
has_delivery event_id endpoint_id (d ∷ ds) =
    if (d.event_id == event_id) && (d.endpoint_id == endpoint_id)
    then true
    else has_delivery event_id endpoint_id ds

-- The row of `uq_events_client_idem`.
unfoldable pub event_of_key : String → String → List Event → Option Event
event_of_key client_id key [] = none
event_of_key client_id key (ev ∷ events) =
    let rest = event_of_key client_id key events in
    if str_eq ev.client_id client_id && str_eq ev.idempotency_key key then some ev else rest

abbrev pub duplicate : Delivery → IngestResult
duplicate d = record {
  event_id = d.event_id;
  delivery_id = d.id;
  delivery_status = d.status;
  is_new = false;
}

-- `rows[0]!` of no row: reading a field of `undefined`.
abbrev pub undefined_row : Thrown
undefined_row = record {
  is_error = true;
  name = "TypeError";
  message = "Cannot read properties of undefined";
  code = none;
}

-- Where ON CONFLICT found the event already.
abbrev pub existing_result : Option Delivery → Db → Result (IngestResult × Db)
existing_result none db = err (thrown undefined_row)
existing_result (some d) db = ok (duplicate d, db)

abbrev pub new_event : IngestParams → ℕ → ℕ → Event
new_event p event_id now = record {
  id = event_id;
  client_id = p.client_id;
  idempotency_key = p.idempotency_key;
  event_type = p.event_type;
  payload = p.payload;
  received_at = now;
}

abbrev pub new_delivery : IngestParams → ℕ → ℕ → ℕ → Delivery
new_delivery p event_id delivery_id now = record {
  id = delivery_id;
  event_id = event_id;
  endpoint_id = p.endpoint_id;
  status = pending;
  attempt_count = 0;
  next_attempt_at = none;
  enqueued = false;
  created_at = now;
  updated_at = now;
}

abbrev pub created_result : ℕ → ℕ → Option Db → Result (IngestResult × Db)
created_result event_id delivery_id none = err violation
created_result event_id delivery_id (some db) = ok (
  record {
    event_id = event_id;
    delivery_id = delivery_id;
    delivery_status = pending;
    is_new = true;
  },
  db,
)

-- Whether the schema refuses the new rows: a primary key or the pair of event and endpoint in use, or
-- no such endpoint.
abbrev pub refuses : IngestParams → ℕ → ℕ → Db → Bool
refuses p event_id delivery_id db =
    is_some (find_event event_id db.events)
    || is_some (find_delivery delivery_id db.deliveries)
    || has_delivery event_id p.endpoint_id db.deliveries
    || not (is_some (find_endpoint p.endpoint_id db.endpoints))

-- The three INSERTs of a new event.
unfoldable pub insert_new : IngestParams → ℕ → ℕ → ℕ → Db → Result (IngestResult × Db)
insert_new p event_id delivery_id now db =
    if refuses p event_id delivery_id db
    then err violation
    else created_result event_id delivery_id (
        insert_transition
          (record {
            delivery_id = delivery_id;
            from_status = none;
            to_status = pending;
            reason = Reason.created;
            actor = api;
            created_at = now;
          })
          (record db {
            events = new_event p event_id now ∷ db.events;
            deliveries = new_delivery p event_id delivery_id now ∷ db.deliveries;
          }))

abbrev pub ingest_found : Option Event → IngestParams → ℕ → ℕ → ℕ → Db → Result (IngestResult × Db)
ingest_found none p event_id delivery_id now db = insert_new p event_id delivery_id now db
ingest_found (some ev) p event_id delivery_id now db =
    existing_result (delivery_of_event ev.id db.deliveries) db

-- The transaction, for the uuids that the database generates.
unfoldable pub ingest_tx : IngestParams → ℕ → ℕ → ℕ → Db → Result (IngestResult × Db)
unfolding insert_new
ingest_tx p event_id delivery_id now db =
    ingest_found (event_of_key p.client_id p.idempotency_key db.events) p event_id delivery_id now
      db

module _ {r : Redis} {b : Bull} where
  -- The row of a cached event, if the cache names one.
  abbrev pub cached_delivery : Option ℕ → M r b (Option Delivery)
  cached_delivery none = pure none
  cached_delivery (some event_id) = query λ db. delivery_of_event event_id db.deliveries

  -- The cache entry is written without waiting for the reply.
  abbrev pub insert_or_find : Config → IngestParams → M r b IngestResult
  insert_or_find c p = do
    event_id ← asks (λ e step. e.event_uuid step)
    delivery_id ← asks (λ e step. e.delivery_uuid step)
    result ← with_tx (ingest_tx p event_id delivery_id)
    _ ← capture (
        redis_command
          λ now s. (tt, r.set now (idem_redis_key p) result.event_id (c.idem_ttl_seconds * 1000) s))
    pure result

  abbrev pub unless_cached : Config → IngestParams → Option Delivery → M r b IngestResult
  unless_cached c p (some d) = pure (duplicate d)
  unless_cached c p none = insert_or_find c p

  unfoldable pub ingest_event : Config → IngestParams → M r b IngestResult
  ingest_event c p = do
    cached_event_id ← redis_command λ now s. (r.get now (idem_redis_key p) s, s)
    found ← cached_delivery cached_event_id
    unless_cached c p found
