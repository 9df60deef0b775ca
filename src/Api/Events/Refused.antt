-- ===== src/Api/Events/Refused.antt =====
-- What POST /v1/events refuses, and in which order.
use webhook_delivery_engine.Prelude.{
  ℕ, ◌≡◌, refl, Bool, true, false, inl, inr, not, is_some, ltb, if◌then◌else◌, Bool-cases, Option,
  none, some, List, [], ◌∷◌,
}
use webhook_delivery_engine.Config.{Config}
use webhook_delivery_engine.Redis.{Redis}
use webhook_delivery_engine.Queue.{Bull}
use webhook_delivery_engine.Db.{Db, Endpoint, find_endpoint}
use webhook_delivery_engine.Exec.{
  Failure, app_error, backpressure, idempotency_key_missing, idempotency_key_too_long,
  payload_too_large, validation_error, endpoint_not_found, storage_unavailable, endpoint_inactive,
  err, Thrown, fine, refused, Inputs, Shared, Run, M, pure, calm, start, throw, asks, await, query,
  capture, ◌>>=◌,
}
use webhook_delivery_engine.Api.Events.{
  EventRequest, EventBody, IdempotencyKey, post_events, check_body, check_key, is_overloaded,
  queue_depth, accept, exceeds,
}

-- The first check that fails decides.
unfoldable pub first_failing : List (Bool × Failure) → Option Failure
first_failing [] = none
first_failing ((fails, f) ∷ checks) = if fails then some f else first_failing checks

abbrev pub is_too_long : Option IdempotencyKey → Bool
is_too_long none = false
is_too_long (some key) = ltb 255 key.units

abbrev pub is_too_large : Config → Option EventBody → Bool
is_too_large c none = false
is_too_large c (some body) = ltb c.max_payload_bytes body.payload_bytes

abbrev pub asked_endpoint : Option EventBody → Db → Option Endpoint
asked_endpoint none db = none
asked_endpoint (some body) db = find_endpoint body.endpoint_id db.endpoints

abbrev pub is_inactive : Option Endpoint → Bool
is_inactive none = false
is_inactive (some endpoint) = not endpoint.is_active

abbrev pub endpoint_checks : Bool → Option Endpoint → List (Bool × Failure)
endpoint_checks down found =
    (down, app_error 503 storage_unavailable)
    ∷ (not (is_some found), app_error 404 endpoint_not_found)
    ∷ (is_inactive found, app_error 409 endpoint_inactive)
    ∷ []

abbrev pub body_checks : Config → Option EventBody → Bool → Db → List (Bool × Failure)
body_checks c body down db =
    (not (is_some body), app_error 400 validation_error)
    ∷ (is_too_large c body, app_error 413 payload_too_large)
    ∷ endpoint_checks down (asked_endpoint body db)

abbrev pub key_checks :
    Config → EventRequest → Option IdempotencyKey → Bool → Db → List (Bool × Failure)
key_checks c req key down db =
    (not (is_some key), app_error 400 idempotency_key_missing)
    ∷ (is_too_long key, app_error 400 idempotency_key_too_long)
    ∷ (exceeds c.max_payload_bytes req.content_length, app_error 413 payload_too_large)
    ∷ body_checks c req.body down db

-- The checks, with `down` for a database that answers no query.
abbrev pub checks : Config → EventRequest → ℕ → Bool → Db → List (Bool × Failure)
checks c req depth down db =
    (ltb c.backpressure_queue_limit depth, app_error 429 backpressure)
    ∷ key_checks c req req.idempotency_key down db

module _ {r : Redis} {b : Bull} (c : Config) (i : Inputs) (t : Thrown) where
  -- The program is answered with `f` and changes nothing.
  abbrev IsRefused : {A : Type 0} → M r b A → Run r b → Failure → Type 0
  IsRefused m run f = ((m (calm i) run).0 ≡ err f) × ((m (calm i) run).1.shared ≡ run.shared)

  accept-refused :
      (key : IdempotencyKey) (body : EventBody) (down : Bool) (found : Option Endpoint)
      (f : Failure) (run : Run r b)
      → i.faults run.step ≡ (if down then refused t else fine)
      → find_endpoint body.endpoint_id run.shared.db.endpoints ≡ found
      → first_failing (endpoint_checks down found) ≡ some f
      → IsRefused (accept c key body) run f
  unfolding accept query await capture throw pure ◌>>=◌ first_failing
  accept-refused key body true found f run fault is_found fails = rw fault (cc, refl)
  accept-refused key body false none f run fault is_found fails = rw (fault, is_found) (cc, refl)
  accept-refused key body false (some endpoint) f run fault is_found fails =
      rw (fault, is_found)
        (elim (Bool-cases endpoint.is_active) [
          | inl active ↦ absurd (let passed = rw active at fails in cc)
          | inr inactive ↦ (let refusal = rw inactive at fails in rw inactive (cc, refl))
        ])

  check_body-refused :
      (key : IdempotencyKey) (body : Option EventBody) (down : Bool) (f : Failure) (run : Run r b)
      → i.faults run.step ≡ (if down then refused t else fine)
      → first_failing (body_checks c body down run.shared.db) ≡ some f
      → IsRefused (check_body c key body) run f
  unfolding throw first_failing
  check_body-refused key none down f run fault fails = (cc, refl)
  check_body-refused key (some body) down f run fault fails =
      elim (Bool-cases (ltb c.max_payload_bytes body.payload_bytes)) [
        | inl large ↦ (let refusal = rw large at fails in rw large (cc, refl))
        | inr fits ↦ rw fits (accept-refused key body down _ f run fault refl (rw fits at fails))
      ]

  check_key-refused :
      (req : EventRequest) (key : Option IdempotencyKey) (down : Bool) (f : Failure) (run : Run r b)
      → i.faults run.step ≡ (if down then refused t else fine)
      → first_failing (key_checks c req key down run.shared.db) ≡ some f
      → IsRefused (check_key c req key) run f
  unfolding throw first_failing
  check_key-refused req none down f run fault fails = (cc, refl)
  check_key-refused req (some key) down f run fault fails = elim (Bool-cases (ltb 255 key.units)) [
    | inl long ↦ (let refusal = rw long at fails in rw long (cc, refl))
    | inr short ↦ rw short (
        let rest = rw short at fails in
        elim (Bool-cases (exceeds c.max_payload_bytes req.content_length)) [
          | inl large ↦ (let refusal = rw large at rest in rw large (cc, refl))
          | inr small ↦
              rw small (check_body-refused key req.body down f run fault (rw small at rest))
        ])
  ]

module _ {r : Redis} {b : Bull} (c : Config) (i : Inputs) (s : Shared r b) (t : Thrown) where
  -- A POST with nobody else at work, for which the queue gives its counts and of which a check fails, is
  -- answered with the error of the first check that fails, in the order of `checks`, and nothing is changed.
  -- The query for the endpoint fails where the database is down, and only there.
  pub post_events-refused :
      (req : EventRequest) (down : Bool) (f : Failure)
      → i.faults 0 ≡ fine
      → i.faults 1 ≡ (if down then refused t else fine)
      → first_failing (checks c req (queue_depth (i.job_counts 0)) down s.db) ≡ some f
      → let (answer, after) = post_events c req (calm i) (start s) in
        (answer ≡ err f) × (after.shared ≡ s)
  unfolding post_events is_overloaded asks await throw ◌>>=◌ first_failing
  post_events-refused req down f up query_fault fails =
      rw up (elim (Bool-cases (ltb c.backpressure_queue_limit (queue_depth (i.job_counts 0)))) [
        | inl full ↦ (let refusal = rw full at fails in rw full (cc, refl))
        | inr room ↦ rw room (
            check_key-refused c i t req req.idempotency_key down f (record (start s) { step = 1 })
              query_fault (rw room at fails))
      ])
