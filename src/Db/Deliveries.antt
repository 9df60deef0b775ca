-- ===== src/Db/Deliveries.antt =====
-- db/deliveries.repo.ts: the worker's read, `transition`, the reconciler's claim and the manual
-- retry. A transaction is one step of the database.
pub mod Retry
pub mod Claim
pub mod Stuck
pub mod Moves
use webhook_delivery_engine.Prelude.{
  ℕ, ◌+◌, ◌*◌, Bool, true, false, not, ◌&&◌, ◌||◌, ltb, if◌then◌else◌, Option, none, some, List, [],
  ◌∷◌, String, length, take, where_rows, map,
}
use webhook_delivery_engine.Config.{Config}
use webhook_delivery_engine.Redis.{Redis}
use webhook_delivery_engine.Queue.{Bull, original}
use webhook_delivery_engine.Db.{
  Db, Delivery, Endpoint, Event, Status, pending, delivering, delivered, failed, dlq, status_eq,
  Actor, manual_retry_api, Reason, find_delivery, find_endpoint, find_event, update_delivery,
  insert_transition,
}
use webhook_delivery_engine.Exec.{
  M, Result, ok, err, violation, thrown, Thrown, Shared, with_tx, query, await, asks, queue_command,
  ◌>>=◌, ◌>>◌,
}

pub record DeliveryForWorker : Type 0 where
  pub id : ℕ
  pub status : Status
  pub attempt_count : ℕ
  pub endpoint_id : ℕ
  pub endpoint_url : String
  pub signing_secret : String
  pub endpoint_active : Bool
  pub event_id : ℕ
  pub event_type : String
  pub payload : String
  pub received_at : ℕ

abbrev pub joined : Delivery → Option Endpoint → Option Event → Option DeliveryForWorker
joined d none _ = none
joined d (some e) none = none
joined d (some e) (some ev) = some (record {
  id = d.id;
  status = d.status;
  attempt_count = d.attempt_count;
  endpoint_id = e.id;
  endpoint_url = e.url;
  signing_secret = e.signing_secret;
  endpoint_active = e.is_active;
  event_id = ev.id;
  event_type = ev.event_type;
  payload = ev.payload;
  received_at = ev.received_at;
})

unfoldable pub for_worker : Option Delivery → Db → Option DeliveryForWorker
for_worker none db = none
for_worker (some d) db =
    joined d (find_endpoint d.endpoint_id db.endpoints) (find_event d.event_id db.events)

-- The inner joins of the SELECT in `getForDelivery`.
unfoldable pub select_for_delivery : ℕ → Db → Option DeliveryForWorker
unfolding for_worker
select_for_delivery id db = for_worker (find_delivery id db.deliveries) db

abbrev pub or_violation : Option Db → Result (Unit {0} × Db)
or_violation none = err violation
or_violation (some db) = ok (tt, db)

abbrev pub set_status : Status → ℕ → Delivery → Delivery
set_status to now d = record d { status = to; updated_at = now }

-- The two statements of `transition`.
unfoldable pub transition_tx :
    ℕ → Status → Status → Actor → Reason → ℕ → Db → Result (Unit {0} × Db)
transition_tx delivery_id from to actor reason now db = or_violation (
    insert_transition
      (record {
        delivery_id = delivery_id;
        from_status = some from;
        to_status = to;
        reason = reason;
        actor = actor;
        created_at = now;
      })
      (record db { deliveries = update_delivery delivery_id (set_status to now) db.deliveries }))

-- `next_attempt_at IS NOT NULL AND next_attempt_at < now()`
abbrev pub is_overdue : ℕ → Option ℕ → Bool
is_overdue now none = false
is_overdue now (some t) = ltb t now

-- The WHERE clause of the reconciler.
unfoldable pub is_stuck : ℕ → ℕ → Delivery → Bool
is_stuck grace_seconds now d =
    (status_eq d.status pending || (status_eq d.status failed && is_overdue now d.next_attempt_at))
    && ltb (d.updated_at + grace_seconds * 1000) now

-- FOR UPDATE SKIP LOCKED LIMIT $2, in the order of the table.
unfoldable pub stuck_ids : ℕ → ℕ → ℕ → (ℕ → Bool) → List Delivery → List ℕ
unfolding is_stuck
stuck_ids grace_seconds limit now locked ds =
    take limit
      (map (λ d. d.id) (where_rows (λ d. is_stuck grace_seconds now d && not (locked d.id)) ds))

abbrev pub set_enqueued : ℕ → Delivery → Delivery
set_enqueued now d = record d { enqueued = true; updated_at = now }

module _ (b : Bull) where
  -- The loop: a job is added for good, also where the transaction is rolled back later.
  unfoldable pub claim_rows :
      (ℕ → Option Thrown) → ℕ → List ℕ → List Delivery → b.State → Result (List Delivery) × b.State
  claim_rows fails now [] ds q = (ok ds, q)
  claim_rows fails now (id ∷ ids) ds q =
      let rest =
        claim_rows fails now ids (update_delivery id (set_enqueued now) ds)
          (b.add (original id) id q) in
      elim (fails id) [ none ↦ rest | some t ↦ (err (thrown t), q) ]

module _ {r : Redis} {b : Bull} where
  abbrev pub claimed : Result (List Delivery) → b.State → ℕ → Shared r b → Result ℕ × Shared r b
  claimed (ok ds) q n s = (ok n, record s { db = record s.db { deliveries = ds }; queue = q })
  claimed (err f) q n s = (err f, record s { queue = q })

  unfoldable pub claim_tx :
      ℕ → ℕ → (ℕ → Bool) → (ℕ → Option Thrown) → ℕ → Shared r b → Result ℕ × Shared r b
  unfolding claim_rows stuck_ids
  claim_tx grace_seconds limit locked fails now s =
      let ids = stuck_ids grace_seconds limit now locked s.db.deliveries in
      let (ds, q) = claim_rows b fails now ids s.db.deliveries s.queue in
      claimed ds q (length ids) s

  unfoldable pub get_for_delivery : ℕ → M r b (Option DeliveryForWorker)
  get_for_delivery id = query (select_for_delivery id)

  unfoldable pub transition : ℕ → Status → Status → Actor → Reason → M r b (Unit {0})
  transition delivery_id from to actor reason =
      with_tx (transition_tx delivery_id from to actor reason)

  unfoldable pub claim_unenqueued : Config → ℕ → M r b ℕ
  claim_unenqueued c limit = do
    locked ← asks (λ e step. e.locked step)
    fails ← asks (λ e step. e.add_fails step)
    await (claim_tx c.reconciler_grace_seconds limit locked fails)

  -- queue/enqueue.ts
  unfoldable pub enqueue_delivery : ℕ → M r b (Unit {0})
  enqueue_delivery delivery_id = do
    queue_command (b.add (original delivery_id) delivery_id)
    with_tx λ now db. ok (
      tt,
      record db { deliveries = update_delivery delivery_id (set_enqueued now) db.deliveries },
    )

pub data RetryFromDlqResult : Type 0 where
  retried not_found : RetryFromDlqResult
  not_in_dlq : Status → RetryFromDlqResult

abbrev pub after_retry : Option Db → Result (RetryFromDlqResult × Db)
after_retry none = err violation
after_retry (some db) = ok (retried, db)

-- The body of `retryFromDlq` once the row is read and locked.
unfoldable pub retry_row : Option Delivery → ℕ → ℕ → Db → Result (RetryFromDlqResult × Db)
retry_row none delivery_id now db = ok (not_found, db)
retry_row (some d) delivery_id now db =
    if not (status_eq d.status dlq)
    then ok (not_in_dlq d.status, db)
    else after_retry (
        insert_transition
          (record {
            delivery_id = delivery_id;
            from_status = some dlq;
            to_status = pending;
            reason = Reason.manual_retry;
            actor = manual_retry_api;
            created_at = now;
          })
          (record db {
            deliveries = update_delivery delivery_id (set_status pending now) db.deliveries;
          }))

unfoldable pub retry_tx : ℕ → ℕ → Db → Result (RetryFromDlqResult × Db)
unfolding retry_row
retry_tx delivery_id now db = retry_row (find_delivery delivery_id db.deliveries) delivery_id now db

unfoldable pub retry_from_dlq : {r : Redis} {b : Bull} → ℕ → M r b RetryFromDlqResult
retry_from_dlq delivery_id = with_tx (retry_tx delivery_id)
