-- ===== src/Db/Ingest/Once.antt =====
-- Ingestion is idempotent.
use webhook_delivery_engine.Prelude.{ℕ, ◌≡◌, refl, true, false, str_eq, str_eq_iff, arith, String}
use webhook_delivery_engine.Db.{Db, insert_transition}
use webhook_delivery_engine.Db.Ingest.{
  IngestParams, IngestResult, ingest_tx, insert_new, event_of_key, delivery_of_event,
}
use webhook_delivery_engine.Exec.{ok}

-- Once an event is ingested, ingesting again with its client and idempotency key, with whatever other
-- parameters, answers with the same event and delivery as a duplicate, and changes nothing.
pub ingest_tx-once :
    (p p' : IngestParams) (event_id delivery_id now : ℕ) (event_id' delivery_id' later : ℕ)
    (db db' : Db) (result : IngestResult)
    → ingest_tx p event_id delivery_id now db ≡ ok (result, db')
    → p'.client_id ≡ p.client_id
    → p'.idempotency_key ≡ p.idempotency_key
    → ingest_tx p' event_id' delivery_id' later db' ≡ ok (record result { is_new = false }, db')
unfolding ingest_tx insert_new insert_transition event_of_key delivery_of_event
ingest_tx-once p p' event_id delivery_id now event_id' delivery_id' later db db' result e client
      key =
    rw (client, key) (ground (arith, e, same p.client_id, same p.idempotency_key))
  where
    same : (s : String) → str_eq s s ≡ true
    same s = (str_eq_iff s s).1 refl
