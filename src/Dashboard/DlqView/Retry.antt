-- ===== src/Dashboard/DlqView/Retry.antt =====
-- What the retry button does, the API behind it.
use webhook_delivery_engine.Redis.{Redis}
use webhook_delivery_engine.Prelude.{
  ==_refl, ◌≢◌, ◌+◌, none, ◌==◌, not, where_rows, refl, [], arith, ◌∷◌, some, false, ◌≡◌, Option,
  List, ℕ,
}
use webhook_delivery_engine.Queue.{retry, Bull}
use webhook_delivery_engine.Config.{Config}
use webhook_delivery_engine.Db.{failed, delivered, delivering, Db, dlq, Status}
use webhook_delivery_engine.Dashboard.DlqView.{
  ok, no_longer_in_dlq, message_of, without_id, retry_row_of, DlqView, has_id,
}
use webhook_delivery_engine.Exec.{
  queue_command, date_now, throw, pure, ◌>>=◌, capture, delivery_not_found, await, with_tx, smooth,
  Result, Run, Inputs,
}
use webhook_delivery_engine.Api.Dlq.{post_retry}
use webhook_delivery_engine.Db.Deliveries.{retry_tx, retry_from_dlq}
use webhook_delivery_engine.Api.Errors.{handle_error, app_code, error_reply_of}
use webhook_delivery_engine.Db.Rows.{status_of}
use webhook_delivery_engine.Db.{pending}
use webhook_delivery_engine.Db.Deliveries.Retry.{retry_tx-retry_tx, retry_result}

without_id-new : (id : ℕ) (js : List ℕ) → has_id id js ≡ false → without_id id js ≡ js
without_id-new id [] h = refl
without_id-new id (j ∷ js) h = ground (arith, without_id-new id js)

-- What the view shows after a retry of a delivery in this status.
abbrev pub view_after : ℕ → Option Status → DlqView → DlqView
view_after id none v = record v {
  toast = some (message_of (error_reply_of 404 (app_code delivery_not_found)));
}
view_after id (some dlq) v = record v { rows = where_rows (λ x. not (x.listed.id == id)) v.rows }
view_after id (some status) v = record v { toast = some (no_longer_in_dlq status) }

module _ {r : Redis} {b : Bull} (c : Config) (i : Inputs) (id : ℕ) (v : DlqView) where
  abbrev button : Run r b → Result DlqView × Run r b
  button = retry_row_of c id v (smooth i)

  -- The process after the answer, by the status that the delivery had.
  abbrev after_button : Option Status → Db → Run r b → Run r b
  after_button (some dlq) db run = record run {
    shared = record run.shared {
      db = db;
      queue = b.add (retry id (i.time (run.step + 1))) id run.shared.queue;
    };
    step = run.step + 1 + 1;
  }
  after_button _ db run = record run { shared = record run.shared { db = db }; step = run.step + 1 }

  button-status :
      (status : Option Status) (db : Db) (run : Run r b)
      → has_id id v.retrying ≡ false
      → retry_tx id (i.time run.step) run.shared.db ≡ ok (retry_result status, db)
      → button run ≡ (ok (view_after id status v), after_button status db run)
  unfolding retry_row_of post_retry retry_from_dlq with_tx await capture ◌>>=◌ pure throw date_now
      queue_command handle_error retry_result
  button-status none db run idle e =
      rw (idle, e)
        (rw (==_refl id)
          (let fresh = without_id-new id v.retrying idle in rw fresh (rw fresh refl)))
  button-status (some pending) db run idle e =
      rw (idle, e)
        (rw (==_refl id)
          (let fresh = without_id-new id v.retrying idle in rw fresh (rw fresh refl)))
  button-status (some delivering) db run idle e =
      rw (idle, e)
        (rw (==_refl id)
          (let fresh = without_id-new id v.retrying idle in rw fresh (rw fresh refl)))
  button-status (some delivered) db run idle e =
      rw (idle, e)
        (rw (==_refl id)
          (let fresh = without_id-new id v.retrying idle in rw fresh (rw fresh refl)))
  button-status (some failed) db run idle e =
      rw (idle, e)
        (rw (==_refl id)
          (let fresh = without_id-new id v.retrying idle in rw fresh (rw fresh refl)))
  button-status (some dlq) db run idle e =
      rw (idle, e)
        (rw (==_refl id)
          (let fresh = without_id-new id v.retrying idle in rw fresh (rw fresh refl)))

  abbrev pub IsRetried : Option Status → Run r b → Run r b → Type 0
  IsRetried status run after =
      (status ≡ some dlq
        → (status_of id after.shared.db.deliveries ≡ some pending)
          × (after.shared.queue ≡ b.add (retry id (i.time (run.step + 1))) id run.shared.queue))
      × (status ≢ some dlq
          → (after.shared.db ≡ run.shared.db) × (after.shared.queue ≡ run.shared.queue))

  after_button-IsRetried :
      (status : Option Status) (db : Db) (run : Run r b)
      → (status ≡ some dlq → status_of id db.deliveries ≡ some pending)
      → (status ≢ some dlq → db ≡ run.shared.db)
      → IsRetried status run (after_button status db run)
  after_button-IsRetried none db run moved kept = (λ e. cc, λ ne. (kept ne, refl))
  after_button-IsRetried (some pending) db run moved kept = (λ e. cc, λ ne. (kept ne, refl))
  after_button-IsRetried (some delivering) db run moved kept = (λ e. cc, λ ne. (kept ne, refl))
  after_button-IsRetried (some delivered) db run moved kept = (λ e. cc, λ ne. (kept ne, refl))
  after_button-IsRetried (some failed) db run moved kept = (λ e. cc, λ ne. (kept ne, refl))
  after_button-IsRetried (some dlq) db run moved kept =
      (λ e. (moved e, refl), λ ne. absurd (ne refl))

  -- The button of a row that is not being retried, with nobody else at work: a delivery in DLQ leaves the
  -- rows and becomes PENDING with a new job; any other stays as it is, and the view says which status it
  -- has, or that it is not found.
  pub retry_row_of-post_retry :
      (run : Run r b)
      → has_id id v.retrying ≡ false
      → let (answer, after) = button run in
        let status = status_of id run.shared.db.deliveries in
        (answer ≡ ok (view_after id status v)) × IsRetried status run after
  retry_row_of-post_retry run idle =
      let h = retry_tx-retry_tx id (i.time run.step) 0 run.shared.db in
      rw (button-status (status_of id run.shared.db.deliveries) _ run idle h.0) (
        refl,
        after_button-IsRetried (status_of id run.shared.db.deliveries) _ run (λ e. (h.1 e).0) h.2,
      )
