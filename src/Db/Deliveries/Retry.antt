-- ===== src/Db/Deliveries/Retry.antt =====
-- What the manual retry does.
use mathlib.Core.Option
use webhook_delivery_engine.Prelude.{ℕ, ◌≡◌, ◌≢◌, refl, Option, none, some, arith, ==_refl}
use webhook_delivery_engine.Db.{
  Db, Status, pending, dlq, find_delivery, update_delivery, insert_transition,
}
use webhook_delivery_engine.Db.Rows.{status_of, find-update_delivery}
use webhook_delivery_engine.Db.Deliveries.{
  retry_tx, retried, not_in_dlq, not_found, set_status, RetryFromDlqResult,
}
use webhook_delivery_engine.Exec.{ok, db_after}

-- The result that a delivery's status calls for.
unfoldable pub retry_result : Option Status → RetryFromDlqResult
retry_result none = not_found
retry_result (some dlq) = retried
retry_result (some status) = not_in_dlq status

-- A manual retry answers by the delivery's status: it succeeds from DLQ only, and then the delivery
-- is PENDING, so that a second retry is refused; from any other status it changes nothing.
pub retry_tx-retry_tx :
    (id now later : ℕ) (db : Db)
    → let db' = db_after db (retry_tx id now db) in
      (retry_tx id now db ≡ ok (retry_result (status_of id db.deliveries), db'))
      × (status_of id db.deliveries ≡ some dlq
          → (status_of id db'.deliveries ≡ some pending)
            × (retry_tx id later db' ≡ ok (not_in_dlq pending, db')))
      × (status_of id db.deliveries ≢ some dlq → db' ≡ db)
unfolding retry_tx retry_result insert_transition
retry_tx-retry_tx id now later db = (
  ground (arith, row),
  λ e. (ground (arith, row), ground (arith, row)),
  λ ne. ground (arith, row),
)
  where
    row :
        find_delivery id (update_delivery id (set_status pending now) db.deliveries)
        ≡ Option.map (set_status pending now) (find_delivery id db.deliveries)
    row =
        rw
          (
            find-update_delivery id id (set_status pending now) db.deliveries (λ d. refl),
            ==_refl id,
          )
          refl
