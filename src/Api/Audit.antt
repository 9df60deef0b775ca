-- ===== src/Api/Audit.antt =====
-- The routes keep the audit invariants.
use webhook_delivery_engine.Prelude.{
  ◌∷◌, inr, not, inl, ◌&&◌, is_some, Bool-cases, String, Bool, ℕ, ltb, Option, none, some,
}
use webhook_delivery_engine.Config.{Config}
use webhook_delivery_engine.Redis.{Redis}
use webhook_delivery_engine.Queue.{Bull}
use webhook_delivery_engine.Db.{find_endpoint, Db, Endpoint, Delivery}
use webhook_delivery_engine.Db.Deliveries.{
  RetryFromDlqResult, retried, not_found, not_in_dlq, retry_from_dlq, enqueue_delivery,
}
use webhook_delivery_engine.Db.Ingest.{
  IngestParams, IngestResult, ingest_event, cached_delivery, unless_cached, insert_or_find,
}
use webhook_delivery_engine.Db.Audit.Steps.{
  endpoints-IsLogged, IsLogged, retry_tx-IsLogged, AreSame-IsLogged, set_enqueued-AreSame,
}
use webhook_delivery_engine.Db.Audit.Ingest.{ingest_tx-IsLogged}
use webhook_delivery_engine.Exec.{Thrown, db_after, Env, Result, ok, err}
use webhook_delivery_engine.Exec.Keeps.{
  Keeps, IsReliable, Keeps-bind, Keeps-asks, Keeps-await, Keeps-with_tx, Keeps-query,
  Keeps-redis_command, Keeps-queue_command, Keeps-capture, Keeps-pure, Keeps-throw, Keeps-date_now,
  Keeps-if,
}
use webhook_delivery_engine.Api.Events.{
  EventRequest, IdempotencyKey, EventBody, is_overloaded, endpoint_or_error, enqueue_new, accept,
  check_body, check_key, post_events, exceeds,
}
use webhook_delivery_engine.Api.Dlq.{answer_retry, post_retry}
use webhook_delivery_engine.Api.Endpoints.{
  is_https, patch_row, gives_nothing, CreateBody, PatchBody, post_endpoints, or_no_endpoint,
  patch_endpoint, insert_endpoint, patch_tx,
}

module _ {r : Redis} {b : Bull} (e : Env r b) (rely : (id n : ℕ) → IsReliable e (IsLogged id n))
    (id n : ℕ) (c : Config) where
  abbrev Logged : Db → Type 0
  Logged = IsLogged id n

  enqueue_delivery-Keeps : (delivery_id : ℕ) → Keeps e Logged (enqueue_delivery delivery_id)
  unfolding enqueue_delivery
  enqueue_delivery-Keeps delivery_id = Keeps-bind _ _ (Keeps-queue_command _ (rely id n)) λ _.
      Keeps-with_tx _ (rely id n) λ now db h.
        AreSame-IsLogged id n db _ (set_enqueued-AreSame delivery_id now db.deliveries) h

  insert_or_find-Keeps : (p : IngestParams) → Keeps e Logged (insert_or_find c p)
  insert_or_find-Keeps p = Keeps-bind _ _ (Keeps-asks _) λ event_id.
      Keeps-bind _ _ (Keeps-asks _) λ delivery_id.
        Keeps-bind _ _
          (Keeps-with_tx _ (rely id n)
            λ now db h. ingest_tx-IsLogged id n p event_id delivery_id now db h)
          λ result.
            Keeps-bind _ _ (Keeps-capture _ (Keeps-redis_command _ (rely id n)))
              λ _. Keeps-pure result

  cached_delivery-Keeps : (cached : Option ℕ) → Keeps e Logged (cached_delivery cached)
  cached_delivery-Keeps none = Keeps-pure none
  cached_delivery-Keeps (some event_id) = Keeps-query _ (rely id n)

  unless_cached-Keeps :
      (p : IngestParams) (found : Option Delivery) → Keeps e Logged (unless_cached c p found)
  unless_cached-Keeps p none = insert_or_find-Keeps p
  unless_cached-Keeps p (some d) = Keeps-pure _

  ingest_event-Keeps : (p : IngestParams) → Keeps e Logged (ingest_event c p)
  unfolding ingest_event
  ingest_event-Keeps p =
      Keeps-bind _ _ (Keeps-redis_command _ (rely id n))
        λ cached. Keeps-bind _ _ (cached_delivery-Keeps cached) λ found. unless_cached-Keeps p found

  endpoint_or_error-Keeps :
      (found : Result (Option Endpoint)) → Keeps e Logged (endpoint_or_error found)
  endpoint_or_error-Keeps (ok none) = Keeps-throw _
  endpoint_or_error-Keeps (ok (some endpoint)) = Keeps-pure endpoint
  endpoint_or_error-Keeps (err f) = Keeps-throw _

  enqueue_new-Keeps : (result : IngestResult) → Keeps e Logged (enqueue_new result)
  enqueue_new-Keeps result =
      Keeps-if _ _ _
        (Keeps-bind _ _ (Keeps-capture _ (enqueue_delivery-Keeps result.delivery_id))
          λ _. Keeps-pure tt)
        (Keeps-pure tt)

  accept-Keeps : (key : IdempotencyKey) (body : EventBody) → Keeps e Logged (accept c key body)
  unfolding accept
  accept-Keeps key body = Keeps-bind _ _ (Keeps-capture _ (Keeps-query _ (rely id n))) λ found.
      Keeps-bind _ _ (endpoint_or_error-Keeps found) λ endpoint. Keeps-if _ _ _ (Keeps-throw _) (
        Keeps-bind _ _ (ingest_event-Keeps _)
          λ result. Keeps-bind _ _ (enqueue_new-Keeps result) λ _. Keeps-pure _)

  check_body-Keeps :
      (key : IdempotencyKey) (body : Option EventBody) → Keeps e Logged (check_body c key body)
  check_body-Keeps key none = Keeps-throw _
  check_body-Keeps key (some body) =
      Keeps-if (ltb c.max_payload_bytes body.payload_bytes) _ _ (Keeps-throw _)
        (accept-Keeps key body)

  check_key-Keeps :
      (req : EventRequest) (key : Option IdempotencyKey) → Keeps e Logged (check_key c req key)
  check_key-Keeps req none = Keeps-throw _
  check_key-Keeps req (some key) = Keeps-if (ltb 255 key.units) _ _ (Keeps-throw _) (
      Keeps-if (exceeds c.max_payload_bytes req.content_length) _ _ (Keeps-throw _)
        (check_body-Keeps key req.body))

  pub post_events-Keeps : (req : EventRequest) → Keeps e Logged (post_events c req)
  unfolding post_events is_overloaded
  post_events-Keeps req =
      Keeps-bind _ _ (Keeps-bind _ _ (Keeps-asks _) λ depth. Keeps-await _ (rely id n) λ now s h. h)
        λ overloaded. Keeps-if _ _ _ (Keeps-throw _) (check_key-Keeps req req.idempotency_key)

  answer_retry-Keeps :
      (delivery_id : ℕ) (result : RetryFromDlqResult)
      → Keeps e Logged (answer_retry c delivery_id result)
  answer_retry-Keeps delivery_id retried =
      Keeps-bind _ _ Keeps-date_now
        λ now. Keeps-bind _ _ (Keeps-queue_command _ (rely id n)) λ _. Keeps-pure _
  answer_retry-Keeps delivery_id not_found = Keeps-throw _
  answer_retry-Keeps delivery_id (not_in_dlq status) = Keeps-throw _

  pub post_retry-Keeps : (delivery_id : ℕ) → Keeps e Logged (post_retry c delivery_id)
  unfolding post_retry retry_from_dlq
  post_retry-Keeps delivery_id =
      Keeps-bind _ _
        (Keeps-with_tx _ (rely id n) λ now db h. retry_tx-IsLogged id n delivery_id now db h)
        (answer_retry-Keeps delivery_id)

module _ {r : Redis} {b : Bull} (e : Env r b) (rely : (id n : ℕ) → IsReliable e (IsLogged id n))
    (id n : ℕ) where
  insert_endpoint-IsLogged :
      (endpoint : Endpoint) (db : Db)
      → IsLogged id n db
      → IsLogged id n (db_after db (insert_endpoint endpoint db))
  unfolding insert_endpoint
  insert_endpoint-IsLogged endpoint db h =
      elim (Bool-cases (is_some (find_endpoint endpoint.id db.endpoints))) [
        | inl known ↦ rw known h
        | inr new ↦ rw new (endpoints-IsLogged id n db (endpoint ∷ db.endpoints) h)
      ]

  pub post_endpoints-Keeps :
      (production : Bool) (secret : String) (body : Option CreateBody)
      → Keeps e (IsLogged id n) (post_endpoints production secret body)
  unfolding post_endpoints
  post_endpoints-Keeps production secret none = Keeps-throw _
  post_endpoints-Keeps production secret (some body) =
      Keeps-if (production && not (is_https body.url)) _ _ (Keeps-throw _) (
        Keeps-bind _ _ (Keeps-asks _)
          λ new_id. Keeps-with_tx _ (rely id n) λ now db h. insert_endpoint-IsLogged _ db h)

  or_no_endpoint-Keeps : (found : Option Endpoint) → Keeps e (IsLogged id n) (or_no_endpoint found)
  or_no_endpoint-Keeps none = Keeps-throw _
  or_no_endpoint-Keeps (some endpoint) = Keeps-pure endpoint

  patch_row-Keeps :
      (cast_error : Thrown) (endpoint_id : Option ℕ) (body : PatchBody)
      → Keeps e (IsLogged id n) (patch_row cast_error endpoint_id body)
  unfolding patch_tx
  patch_row-Keeps cast_error none body = Keeps-throw _
  patch_row-Keeps cast_error (some endpoint_id) body =
      Keeps-bind _ _ (Keeps-with_tx _ (rely id n) λ now db h. endpoints-IsLogged id n db _ h)
        or_no_endpoint-Keeps

  pub patch_endpoint-Keeps :
      (cast_error : Thrown) (endpoint_id : Option ℕ) (body : Option PatchBody)
      → Keeps e (IsLogged id n) (patch_endpoint cast_error endpoint_id body)
  unfolding patch_endpoint
  patch_endpoint-Keeps cast_error endpoint_id none = Keeps-throw _
  patch_endpoint-Keeps cast_error endpoint_id (some body) =
      Keeps-if (gives_nothing body) _ _ (Keeps-throw _)
        (patch_row-Keeps cast_error endpoint_id body)
