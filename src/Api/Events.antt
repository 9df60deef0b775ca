-- ===== src/Api/Events.antt =====
-- api/routes/events.ts and api/backpressure.ts: POST /v1/events. The answers of the HTTP library and
-- of the schema validation are part of the request; the cached counts of the queue are the
-- environment's.
pub mod Accepted
pub mod Refused
use webhook_delivery_engine.Prelude.{
  ◌+◌, or_else, ℕ, Bool, false, not, ltb, if◌then◌else◌, Option, none, some, String,
}
use webhook_delivery_engine.Config.{Config}
use webhook_delivery_engine.Redis.{Redis}
use webhook_delivery_engine.Queue.{Bull}
use webhook_delivery_engine.Db.{Endpoint, Status, find_endpoint}
use webhook_delivery_engine.Db.Deliveries.{enqueue_delivery}
use webhook_delivery_engine.Db.Ingest.{IngestResult, ingest_event}
use webhook_delivery_engine.Exec.{
  M, Result, ok, err, app_error, backpressure, idempotency_key_missing, idempotency_key_too_long,
  payload_too_large, validation_error, endpoint_not_found, storage_unavailable, endpoint_inactive,
  pure, throw, asks, await, query, capture, ◌>>=◌, ◌>>◌,
}

-- The header's text and its length in code units.
pub record IdempotencyKey : Type 0 where
  pub text : String
  pub units : ℕ

-- What `eventBodySchema` accepts; the payload is its JSON text.
pub record EventBody : Type 0 where
  pub endpoint_id : ℕ
  pub event_type : String
  pub payload : String
  pub payload_bytes : ℕ

-- `idempotency_key` is `none` where the header is missing, empty or no text; `content_length` is
-- `none` where it is no number; `body` is `none` where the schema rejects it.
pub record EventRequest : Type 0 where
  pub idempotency_key : Option IdempotencyKey
  pub content_length : Option ℕ
  pub body : Option EventBody

pub record EventReply : Type 0 where
  pub status_code : ℕ
  pub event_id : ℕ
  pub delivery_id : ℕ
  pub status : Status
  pub duplicate : Bool

-- A count that is missing is 0.
abbrev pub queue_depth : Option ℕ × Option ℕ → ℕ
queue_depth (wait, delayed) = or_else wait 0 + or_else delayed 0

abbrev pub exceeds : ℕ → Option ℕ → Bool
exceeds limit none = false
exceeds limit (some bytes) = ltb limit bytes

abbrev pub reply : IngestResult → EventReply
reply result = record {
  status_code = if result.is_new then 202 else 200;
  event_id = result.event_id;
  delivery_id = result.delivery_id;
  status = result.delivery_status;
  duplicate = not result.is_new;
}

module _ {r : Redis} {b : Bull} where
  -- Counts that the cache has are no wait; the environment may let them take a step as well.
  unfoldable pub is_overloaded : Config → M r b Bool
  is_overloaded c = do
    counts ← asks (λ e step. e.job_counts step)
    await λ now s. (ok (ltb c.backpressure_queue_limit (queue_depth counts)), s)

  -- The `catch` around the query.
  abbrev pub endpoint_or_error : Result (Option Endpoint) → M r b Endpoint
  endpoint_or_error (ok none) = throw (app_error 404 endpoint_not_found)
  endpoint_or_error (ok (some endpoint)) = pure endpoint
  endpoint_or_error (err f) = throw (app_error 503 storage_unavailable)

  -- An enqueueing that fails is logged, and left to the reconciler.
  abbrev pub enqueue_new : IngestResult → M r b (Unit {0})
  enqueue_new result =
      if result.is_new
      then (do _ ← capture (enqueue_delivery result.delivery_id); pure tt)
      else pure tt

  -- From the query for the endpoint on.
  unfoldable pub accept : Config → IdempotencyKey → EventBody → M r b EventReply
  accept c key body = do
    found ← capture (query λ db. find_endpoint body.endpoint_id db.endpoints)
    endpoint ← endpoint_or_error found
    if not endpoint.is_active then throw (app_error 409 endpoint_inactive) else do
      result ← ingest_event c (record {
        client_id = endpoint.client_id;
        idempotency_key = key.text;
        event_type = body.event_type;
        payload = body.payload;
        endpoint_id = body.endpoint_id;
      })
      enqueue_new result
      pure (reply result)

  abbrev pub check_body : Config → IdempotencyKey → Option EventBody → M r b EventReply
  check_body c key none = throw (app_error 400 validation_error)
  check_body c key (some body) =
      if ltb c.max_payload_bytes body.payload_bytes
      then throw (app_error 413 payload_too_large)
      else accept c key body

  abbrev pub check_key : Config → EventRequest → Option IdempotencyKey → M r b EventReply
  check_key c req none = throw (app_error 400 idempotency_key_missing)
  check_key c req (some key) =
      if ltb 255 key.units
      then throw (app_error 400 idempotency_key_too_long)
      else if exceeds c.max_payload_bytes req.content_length
      then throw (app_error 413 payload_too_large)
      else check_body c key req.body

  unfoldable pub post_events : Config → EventRequest → M r b EventReply
  post_events c req = do
    overloaded ← is_overloaded c
    if overloaded then throw (app_error 429 backpressure) else check_key c req req.idempotency_key
