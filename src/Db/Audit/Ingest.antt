-- ===== src/Db/Audit/Ingest.antt =====
-- Ingestion keeps the audit invariants.
use webhook_delivery_engine.Prelude.{
  ℕ, ◌≡◌, refl, false, some, arith, is_some, Option-cases, inl, inr, ◌⊎◌,
}
use webhook_delivery_engine.Db.{Db, pending, find_delivery, insert_transition}
use webhook_delivery_engine.Db.Rows.{status_of, attempt_count_of, last_status}
use webhook_delivery_engine.Db.Audit.Steps.{IsLogged}
use webhook_delivery_engine.Db.Ingest.{
  IngestParams, IngestResult, ingest_tx, insert_new, event_of_key, delivery_of_event,
}
use webhook_delivery_engine.Exec.{Result, ok, err, db_after}

module _ (p : IngestParams) (event_id delivery_id now : ℕ) (db db' : Db) (result : IngestResult)
    (inserted : insert_new p event_id delivery_id now db ≡ ok (result, db')) where
  insert-free : is_some (find_delivery delivery_id db.deliveries) ≡ false
  unfolding insert_new insert_transition
  insert-free = ground arith

  insert-attempts : db'.attempts ≡ db.attempts
  unfolding insert_new insert_transition
  insert-attempts = ground arith

  insert-count : (id : ℕ) → attempt_count_of id db'.deliveries ≡ attempt_count_of id db.deliveries
  unfolding insert_new insert_transition find_delivery
  insert-count id = ground arith

  insert-status :
      (id : ℕ)
      → (status_of id db'.deliveries ≡ status_of id db.deliveries)
        ⊎ (status_of id db'.deliveries ≡ some pending)
  unfolding insert_new insert_transition find_delivery
  insert-status id = ground arith

  insert-traced :
      (id : ℕ)
      → last_status id db.transitions ≡ status_of id db.deliveries
      → last_status id db'.transitions ≡ status_of id db'.deliveries
  unfolding insert_new insert_transition find_delivery last_status
  insert-traced id h = ground arith

  insert-IsLogged : (id n : ℕ) → IsLogged id n db → IsLogged id n db'
  insert-IsLogged id n h = record {
    audited = record {
      numbered = λ j. rw (insert-attempts, insert-count j) (h.audited.numbered j);
      traced = λ j. insert-traced j (h.audited.traced j);
      proved = λ j e. ground (arith, insert-attempts, insert-status j, h.audited.proved j);
    };
    reached = rw (insert-count id) h.reached;
  }

pub ingest_tx-IsLogged :
    (id n : ℕ) (p : IngestParams) (event_id delivery_id now : ℕ) (db : Db)
    → IsLogged id n db
    → IsLogged id n (db_after db (ingest_tx p event_id delivery_id now db))
unfolding ingest_tx
ingest_tx-IsLogged id n p event_id delivery_id now db h =
    elim (Option-cases (event_of_key p.client_id p.idempotency_key db.events)) [
      | inl new ↦ rw new (after (insert_new p event_id delivery_id now db) refl)
      | inr (ev, old) ↦ elim (Option-cases (delivery_of_event ev.id db.deliveries)) [
        | inl e ↦ rw (old, e) h
        | inr (d, e) ↦ rw (old, e) h
      ]
    ]
  where
    after :
        (result : Result (IngestResult × Db))
        → insert_new p event_id delivery_id now db ≡ result
        → IsLogged id n (db_after db result)
    after (err f) e = h
    after (ok (result, db')) e = insert-IsLogged p event_id delivery_id now db db' result e id n h
