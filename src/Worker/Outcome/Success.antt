-- ===== src/Worker/Outcome/Success.antt =====
-- When an attempt counts as a success.
use webhook_delivery_engine.Prelude.{◌≡◌, ◌≢◌, ◌≤◌, ◌<◌, ◌↔◌, refl, Bool, true, false, arith}
use webhook_delivery_engine.Config.{Config}
use webhook_delivery_engine.Db.{delivered, failed}
use webhook_delivery_engine.Exec.{
  Result, ok, err, Failure, app_error, deliver_error, timeout, conn_error, delayed, attempt_failed,
  thrown, violation, crashed,
}
use webhook_delivery_engine.Worker.HttpClient.{DeliverResult}
use webhook_delivery_engine.Worker.Outcome.{judge, failure_verdict, to_status}

-- The lock was kept and the receiver answered 200 to 299.
abbrev pub IsDelivery : Bool → Result DeliverResult → Type 0
IsDelivery true _ = ⊥
IsDelivery false (err _) = ⊥
IsDelivery false (ok result) = (200 ≤ result.status) × (result.status < 300)

-- A delivery is marked DELIVERED exactly when the lock was kept throughout the call and the receiver
-- answered with a status from 200 to 299; otherwise it is marked FAILED.
pub judge-delivered :
    (c : Config) (lost : Bool) (result : Result DeliverResult)
    → (to_status (judge c lost result).outcome ≡ delivered ↔ IsDelivery lost result)
      × (to_status (judge c lost result).outcome ≢ delivered
          → to_status (judge c lost result).outcome ≡ failed)
unfolding judge
judge-delivered c true result = ((λ e. cc, λ e. absurd e), λ ne. refl)
judge-delivered c false (ok result) = ground arith
judge-delivered c false (err f) = not_delivered f
  where
    not_delivered :
        (f : Failure)
        → (to_status (failure_verdict c f).outcome ≡ delivered ↔ ⊥)
          × (to_status (failure_verdict c f).outcome ≢ delivered
              → to_status (failure_verdict c f).outcome ≡ failed)
    not_delivered (app_error status_code code) = ((λ e. cc, λ e. absurd e), λ ne. refl)
    not_delivered delayed = ((λ e. cc, λ e. absurd e), λ ne. refl)
    not_delivered (attempt_failed reason) = ((λ e. cc, λ e. absurd e), λ ne. refl)
    not_delivered (deliver_error timeout message) = ((λ e. cc, λ e. absurd e), λ ne. refl)
    not_delivered (deliver_error conn_error message) = ((λ e. cc, λ e. absurd e), λ ne. refl)
    not_delivered (thrown t) = ((λ e. cc, λ e. absurd e), λ ne. refl)
    not_delivered violation = ((λ e. cc, λ e. absurd e), λ ne. refl)
    not_delivered crashed = ((λ e. cc, λ e. absurd e), λ ne. refl)
