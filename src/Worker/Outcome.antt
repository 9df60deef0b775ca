-- ===== src/Worker/Outcome.antt =====
-- worker/processor.ts, the part that judges a finished call: outcome, columns of the attempt row and
-- reason.
pub mod Success
use webhook_delivery_engine.Prelude.{
  ℕ, Bool, true, false, ◌&&◌, leb, ltb, if◌then◌else◌, Option, none, some, List,
}
use webhook_delivery_engine.Config.{Config}
use webhook_delivery_engine.Db.{
  AttemptOutcome, success, http_error, Reason, ErrorMessage, Status, delivered, failed,
}
use webhook_delivery_engine.Db.Rows.{is_success}
use webhook_delivery_engine.Exec.{Result, ok, err, Failure, deliver_error, thrown, DeliverErrorKind}
use webhook_delivery_engine.Worker.HttpClient.{DeliverResult}

-- LOCK_LOST and CIRCUIT_OPEN are no failures of the endpoint.
unfoldable pub is_real_failure_outcome : AttemptOutcome → Bool
is_real_failure_outcome AttemptOutcome.http_error = true
is_real_failure_outcome AttemptOutcome.timeout = true
is_real_failure_outcome AttemptOutcome.conn_error = true
is_real_failure_outcome _ = false

pub record Verdict : Type 0 where
  pub outcome : AttemptOutcome
  pub http_status : Option ℕ
  pub response_body : Option (List ℕ)
  pub error_message : Option ErrorMessage
  pub reason : Reason

abbrev pub lock_lost_verdict : Verdict
lock_lost_verdict = record {
  outcome = AttemptOutcome.lock_lost;
  http_status = none;
  response_body = none;
  error_message = some ErrorMessage.lock_lost;
  reason = Reason.lock_lost;
}

abbrev pub is_2xx : ℕ → Bool
is_2xx status = leb 200 status && ltb status 300

abbrev pub response_verdict : DeliverResult → Verdict
response_verdict result = record {
  outcome = if is_2xx result.status then success else http_error;
  http_status = some result.status;
  response_body = some result.body;
  error_message = if is_2xx result.status then none else some (ErrorMessage.http result.status);
  reason = Reason.http result.status;
}

-- The `catch` of the call.
abbrev pub failure_verdict : Config → Failure → Verdict
failure_verdict c (deliver_error DeliverErrorKind.timeout message) = record {
  outcome = AttemptOutcome.timeout;
  http_status = none;
  response_body = none;
  error_message = some (ErrorMessage.text message);
  reason = Reason.timeout c.http_timeout_ms;
}
failure_verdict c (deliver_error DeliverErrorKind.conn_error message) = record {
  outcome = AttemptOutcome.conn_error;
  http_status = none;
  response_body = none;
  error_message = some (ErrorMessage.text message);
  reason = Reason.conn_error;
}
failure_verdict c (thrown t) = record {
  outcome = AttemptOutcome.conn_error;
  http_status = none;
  response_body = none;
  error_message = some (ErrorMessage.text t.message);
  reason = Reason.conn_error;
}
failure_verdict c _ = record {
  outcome = AttemptOutcome.conn_error;
  http_status = none;
  response_body = none;
  error_message = none;
  reason = Reason.conn_error;
}

unfoldable pub judge : Config → Bool → Result DeliverResult → Verdict
judge c true _ = lock_lost_verdict
judge c false (ok result) = response_verdict result
judge c false (err f) = failure_verdict c f

abbrev pub to_status : AttemptOutcome → Status
to_status outcome = if is_success outcome then delivered else failed
