-- ===== src/Api/Events/Accepted.antt =====
-- What POST /v1/events leaves for a new key, and what it answers when it is sent again.
use webhook_delivery_engine.Prelude.{
  ℕ, ◌+◌, ◌*◌, ◌≡◌, refl, true, false, inl, inr, ◌⊎◌, ◌==◌, ==_refl, ltb, if◌then◌else◌, Bool-cases,
  none, some, ◌∷◌, str_eq_iff, arith,
}
use webhook_delivery_engine.Config.{Config}
use webhook_delivery_engine.Redis.{Redis}
use webhook_delivery_engine.Redis.Fields.{key_eq_refl}
use webhook_delivery_engine.Queue.{Bull, original}
use webhook_delivery_engine.Db.{
  Db, Delivery, Event, Endpoint, pending, api, Reason, Transition, find_delivery, find_endpoint,
  update_delivery, insert_transition,
}
use webhook_delivery_engine.Db.Rows.{find-update_delivery}
use webhook_delivery_engine.Db.Deliveries.{enqueue_delivery, set_enqueued}
use webhook_delivery_engine.Db.Ingest.{
  IngestParams, ingest_event, ingest_tx, insert_new, idem_redis_key, event_of_key,
  delivery_of_event, new_event, new_delivery, refuses, duplicate,
}
use webhook_delivery_engine.Exec.{
  M, Inputs, Shared, ◌>>◌, Run, Result, ok, smooth, start, pure, asks, await, query, capture,
  redis_command, queue_command, with_tx, ◌>>=◌,
}
use webhook_delivery_engine.Api.Events.{
  enqueue_new, reply, EventRequest, EventReply, EventBody, IdempotencyKey, post_events,
  is_overloaded, queue_depth, accept, exceeds,
}

-- The request has this key and this body, and each is within its limits.
abbrev pub IsValid : Config → EventRequest → IdempotencyKey → EventBody → Type 0
IsValid c req key body =
    (req.idempotency_key ≡ some key)
    × (ltb 255 key.units ≡ false)
    × (exceeds c.max_payload_bytes req.content_length ≡ false)
    × (req.body ≡ some body)
    × (ltb c.max_payload_bytes body.payload_bytes ≡ false)

abbrev pub params_of : Endpoint → IdempotencyKey → EventBody → IngestParams
params_of endpoint key body = record {
  client_id = endpoint.client_id;
  idempotency_key = key.text;
  event_type = body.event_type;
  payload = body.payload;
  endpoint_id = body.endpoint_id;
}

-- The row of the new delivery, once it is enqueued.
abbrev pub stored : Inputs → IngestParams → Delivery
stored i p = record (new_delivery p (i.event_uuid 3) (i.delivery_uuid 3) (i.time 3)) {
  enqueued = true;
  updated_at = i.time 6;
}

abbrev created : ℕ → ℕ → Transition
created delivery_id now = record {
  delivery_id = delivery_id;
  from_status = none;
  to_status = pending;
  reason = Reason.created;
  actor = api;
  created_at = now;
}

ingest_tx-new :
    (p : IngestParams) (event_id delivery_id now : ℕ) (db : Db)
    → event_of_key p.client_id p.idempotency_key db.events ≡ none
    → refuses p event_id delivery_id db ≡ false
    → ingest_tx p event_id delivery_id now db
      ≡ ok (
        record {
          event_id = event_id;
          delivery_id = delivery_id;
          delivery_status = pending;
          is_new = true;
        },
        record db {
          events = new_event p event_id now ∷ db.events;
          deliveries = new_delivery p event_id delivery_id now ∷ db.deliveries;
          transitions = created delivery_id now ∷ db.transitions;
        },
      )
unfolding ingest_tx insert_new insert_transition find_delivery
ingest_tx-new p event_id delivery_id now db new free =
    rw new (rw free (rw (==_refl delivery_id) refl))

module _ {r : Redis} {b : Bull} (c : Config) where
  -- What follows the check of the endpoint.
  abbrev ingest_and_enqueue : IngestParams → M r b EventReply
  ingest_and_enqueue p = do result ← ingest_event c p; enqueue_new result; pure (reply result)

  -- A valid request while the queue has room, for an endpoint that is there and active.
  post_events-accept :
      (i : Inputs) (s : Shared r b) (req : EventRequest) (key : IdempotencyKey) (body : EventBody)
      (endpoint : Endpoint)
      → IsValid c req key body
      → ltb c.backpressure_queue_limit (queue_depth (i.job_counts 0)) ≡ false
      → find_endpoint body.endpoint_id s.db.endpoints ≡ some endpoint
      → endpoint.is_active ≡ true
      → post_events c req (smooth i) (start s)
        ≡ ingest_and_enqueue
            (params_of endpoint key body)
            (smooth i)
            (record (start s) { step = 2 })
  unfolding post_events is_overloaded accept query asks await capture pure ◌>>=◌
  post_events-accept i s req key body endpoint (has_key, short, small, has_body, fits) room found
        active =
      rw (room, has_key) (rw (short, small, has_body) (rw (fits, found) (rw active refl)))

  -- The stores after the ingestion of a new key.
  abbrev after_ingest : Inputs → IngestParams → Shared r b → Shared r b
  after_ingest i p s = record s {
    db = record s.db {
      events = new_event p (i.event_uuid 3) (i.time 3) ∷ s.db.events;
      deliveries =
          stored i p
          ∷ update_delivery (i.delivery_uuid 3) (set_enqueued (i.time 6)) s.db.deliveries;
      transitions = created (i.delivery_uuid 3) (i.time 3) ∷ s.db.transitions;
    };
    redis =
        r.set (i.time 4) (idem_redis_key p) (i.event_uuid 3) (c.idem_ttl_seconds * 1000) s.redis;
    queue = b.add (original (i.delivery_uuid 3)) (i.delivery_uuid 3) s.queue;
  }

  ingest-new :
      (i : Inputs) (p : IngestParams) (s : Shared r b)
      → r.get (i.time 2) (idem_redis_key p) s.redis ≡ none
      → event_of_key p.client_id p.idempotency_key s.db.events ≡ none
      → refuses p (i.event_uuid 3) (i.delivery_uuid 3) s.db ≡ false
      → let (answer, after) = ingest_and_enqueue p (smooth i) (record (start s) { step = 2 }) in
        (answer
          ≡ ok (record {
            status_code = 202;
            event_id = i.event_uuid 3;
            delivery_id = i.delivery_uuid 3;
            status = pending;
            duplicate = false;
          }))
        × (after.shared ≡ after_ingest i p s)
  unfolding ingest_event enqueue_delivery redis_command queue_command with_tx asks await capture
      pure ◌>>=◌ update_delivery
  ingest-new i p s uncached new free = rw uncached (
      rw (ingest_tx-new p (i.event_uuid 3) (i.delivery_uuid 3) (i.time 3) s.db new free)
        (rw (==_refl (i.delivery_uuid 3)) (refl, refl)))

  -- A key that is known, whether or not the cache still has it.
  ingest-known :
      (j : Inputs) (p : IngestParams) (s : Shared r b) (ev : Event) (d : Delivery)
      → (r.get (j.time 2) (idem_redis_key p) s.redis ≡ some ev.id)
        ⊎ (r.get (j.time 2) (idem_redis_key p) s.redis ≡ none)
      → event_of_key p.client_id p.idempotency_key s.db.events ≡ some ev
      → delivery_of_event ev.id s.db.deliveries ≡ some d
      → let (answer, after) = ingest_and_enqueue p (smooth j) (record (start s) { step = 2 }) in
        (answer ≡ ok (reply (duplicate d)))
        × (after.shared.db ≡ s.db)
        × (after.shared.queue ≡ s.queue)
  unfolding ingest_event redis_command query with_tx asks await capture pure ◌>>=◌ ingest_tx
  ingest-known j p s ev d (inl cached) known row = rw cached (rw row (refl, refl, refl))
  ingest-known j p s ev d (inr expired) known row =
      rw expired (rw known (rw row (refl, refl, refl)))

  cached_or_expired :
      (i : Inputs) (p : IngestParams) (s : Shared r b) (t : ℕ)
      → (r.get t (idem_redis_key p) (after_ingest i p s).redis ≡ some (i.event_uuid 3))
        ⊎ (r.get t (idem_redis_key p) (after_ingest i p s).redis ≡ none)
  cached_or_expired i p s t = elim (Bool-cases (ltb t (i.time 4 + c.idem_ttl_seconds * 1000))) [
    | inl lives ↦ inl (rw r.get-set (rw (key_eq_refl (idem_redis_key p)) (rw lives refl)))
    | inr over ↦ inr (rw r.get-set (rw (key_eq_refl (idem_redis_key p)) (rw over refl)))
  ]

  ingest-again :
      (i j : Inputs) (p p' : IngestParams) (s : Shared r b)
      → p'.client_id ≡ p.client_id
      → p'.idempotency_key ≡ p.idempotency_key
      → let (answer, after) =
          ingest_and_enqueue p' (smooth j) (record (start (after_ingest i p s)) { step = 2 }) in
        (answer ≡ ok (reply (duplicate (stored i p))))
        × (after.shared.db ≡ (after_ingest i p s).db)
        × (after.shared.queue ≡ (after_ingest i p s).queue)
  unfolding event_of_key delivery_of_event
  ingest-again i j p p' s client key =
      ingest-known j p' (after_ingest i p s) (new_event p (i.event_uuid 3) (i.time 3)) (stored i p)
        (rw (client, key) (cached_or_expired i p s (j.time 2)))
        (rw (client, key)
          (rw ((str_eq_iff p.client_id p.client_id).1 refl)
            (rw ((str_eq_iff p.idempotency_key p.idempotency_key).1 refl) refl)))
        (rw (==_refl (i.event_uuid 3)) refl)

  after_ingest-rows :
      (i : Inputs) (p : IngestParams) (s : Shared r b) (id : ℕ)
      → find_delivery id (after_ingest i p s).db.deliveries
        ≡ (if i.delivery_uuid 3 == id then some (stored i p) else find_delivery id s.db.deliveries)
  unfolding find_delivery
  after_ingest-rows i p s id =
      let rest =
        find-update_delivery (i.delivery_uuid 3) id (set_enqueued (i.time 6)) s.db.deliveries
          (λ d. refl) in
      ground (arith, rest)

  -- The first POST of a key, and one more with the same key.
  module _ (i j : Inputs) (s : Shared r b) (req again : EventRequest) (key : IdempotencyKey)
      (body body' : EventBody) (endpoint endpoint' : Endpoint) where
    abbrev pub first : Result EventReply × Run r b
    first = post_events c req (smooth i) (start s)

    abbrev pub second : Result EventReply × Run r b
    second = post_events c again (smooth j) (start first.1.shared)

    abbrev p : IngestParams
    p = params_of endpoint key body

    -- With nobody else at work and room in the queue: a valid POST of a new key for an active endpoint is
    -- answered with 202, its delivery is stored, PENDING and enqueued, the other deliveries stay as they are,
    -- and a job for it is added. A valid POST of the same key, for an active endpoint of the same client and
    -- with whatever body and at whatever time after it, is answered with 200 and the same event and delivery,
    -- and neither the database nor the queue changes.
    pub post_events-post_events :
        IsValid c req key body
        → IsValid c again key body'
        → find_endpoint body.endpoint_id s.db.endpoints ≡ some endpoint
        → find_endpoint body'.endpoint_id s.db.endpoints ≡ some endpoint'
        → endpoint'.client_id ≡ endpoint.client_id
        → endpoint.is_active ≡ true
        → endpoint'.is_active ≡ true
        → ltb c.backpressure_queue_limit (queue_depth (i.job_counts 0)) ≡ false
        → ltb c.backpressure_queue_limit (queue_depth (j.job_counts 0)) ≡ false
        → r.get (i.time 2) (idem_redis_key p) s.redis ≡ none
        → event_of_key endpoint.client_id key.text s.db.events ≡ none
        → refuses p (i.event_uuid 3) (i.delivery_uuid 3) s.db ≡ false
        → (first.0
            ≡ ok (record {
              status_code = 202;
              event_id = i.event_uuid 3;
              delivery_id = i.delivery_uuid 3;
              status = pending;
              duplicate = false;
            }))
          × ((id : ℕ)
              → find_delivery id first.1.shared.db.deliveries ≡ (
                  if i.delivery_uuid 3 == id
                  then some (stored i p)
                  else find_delivery id s.db.deliveries))
          × (first.1.shared.queue
              ≡ b.add (original (i.delivery_uuid 3)) (i.delivery_uuid 3) s.queue)
          × (second.0
              ≡ ok (record {
                status_code = 200;
                event_id = i.event_uuid 3;
                delivery_id = i.delivery_uuid 3;
                status = pending;
                duplicate = true;
              }))
          × (second.1.shared.db ≡ first.1.shared.db)
          × (second.1.shared.queue ≡ first.1.shared.queue)
    post_events-post_events valid valid' found found' same active active' room room' uncached new
          free =
        let posted = ingest-new i p s uncached new free in
        let known = ingest-again i j p (params_of endpoint' key body') s same refl in
        rw (post_events-accept i s req key body endpoint valid room found active) (
          rw (posted.0, posted.1)
            (rw
              (post_events-accept j (after_ingest i p s) again key body' endpoint' valid' room'
                found' active')
              (refl, after_ingest-rows i p s, refl, known.0, known.1, known.2)))
