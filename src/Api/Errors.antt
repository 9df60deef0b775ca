-- ===== src/Api/Errors.antt =====
-- api/app.ts: the error handler and GET /readyz.
use webhook_delivery_engine.Prelude.{
  ◌&&◌, some, false, ◌==◌, true, if◌then◌else◌, Bool, none, Option, ℕ,
}
use webhook_delivery_engine.Redis.{Redis}
use webhook_delivery_engine.Exec.{
  pure, validation_error, redis_command, query, payload_too_large, capture, ◌>>=◌, err, M,
  app_error, ok, Failure, ErrorCode, Result,
}
use webhook_delivery_engine.Queue.{Bull}

-- What reaches the handler: a failure of a route, or an error of the HTTP library.
pub data RequestError : Type 0 where
  of_route : Failure → RequestError
  body_too_large schema_validation : RequestError

pub data PublicCode : Type 0 where
  app_code : ErrorCode → PublicCode
  internal_error : PublicCode

pub record ErrorReply : Type 0 where
  pub status_code : ℕ
  pub code : PublicCode
  pub retry_after : Option ℕ

abbrev pub error_reply_of : ℕ → PublicCode → ErrorReply
error_reply_of status code = record { status_code = status; code = code; retry_after = none }

unfoldable pub handle_error : RequestError → ErrorReply
handle_error (of_route (app_error status code)) = record {
  status_code = status;
  code = app_code code;
  retry_after = if status == 429 then some 5 else none;
}
handle_error (of_route f) = error_reply_of 500 internal_error
handle_error body_too_large = error_reply_of 413 (app_code payload_too_large)
handle_error schema_validation = error_reply_of 400 (app_code validation_error)

pub record Readiness : Type 0 where
  pub status_code : ℕ
  pub postgres : Bool
  pub redis : Bool

abbrev pub is_ok : {A : Type 0} → Result A → Bool
is_ok (ok a) = true
is_ok (err f) = false

module _ {r : Redis} {b : Bull} where
  unfoldable pub readyz : M r b Readiness
  readyz = do
    selected ← capture (query λ db. tt)
    ponged ← capture (redis_command λ now s. (tt, s))
    pure (record {
      status_code = if is_ok selected && is_ok ponged then 200 else 503;
      postgres = is_ok selected;
      redis = is_ok ponged;
    })
