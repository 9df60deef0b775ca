-- ===== src/Worker/HttpClient.antt =====
-- worker/httpClient.ts. The call of `request` counts as a post at once; `during` is what the process does until the
-- receiver answers (the heartbeat of worker/heartbeat.ts), and gives whether the lock was lost.
pub mod Timeouts
use webhook_delivery_engine.Prelude.{
  includes, ℕ, ◌-◌, Bool, ◌&&◌, ◌||◌, str_eq, if◌then◌else◌, List, ◌∷◌, String, take,
}
use webhook_delivery_engine.Config.{Config}
use webhook_delivery_engine.Redis.{Redis}
use webhook_delivery_engine.Queue.{Bull}
use webhook_delivery_engine.Exec.{
  M, Result, ok, err, Failure, thrown, deliver_error, Thrown, DeliverErrorKind, timeout, conn_error,
  Post, pure, emit, asks, await, date_now, capture, ◌>>=◌, ◌>>◌,
}

pub record DeliverResult : Type 0 where
  pub status : ℕ
  pub body : List ℕ
  pub latency_ms : ℕ

abbrev is_timeout : String → String → Bool
is_timeout name msg =
    str_eq name "AbortError"
    || includes msg "UND_ERR_HEADERS_TIMEOUT"
    || includes msg "UND_ERR_BODY_TIMEOUT"
    || includes msg "UND_ERR_CONNECT_TIMEOUT"

-- By the name and the message; `code` is not looked at.
unfoldable pub classify : Thrown → DeliverErrorKind
classify t = if t.is_error && is_timeout t.name t.message then timeout else conn_error

-- The `catch`: whatever was thrown becomes a DeliverError. `message` holds the text of a thrown
-- value that is no `Error`, too.
unfoldable pub as_deliver_error : Failure → Failure
unfolding classify
as_deliver_error (thrown t) = deliver_error (classify t) t.message
as_deliver_error f = f

abbrev pub settled : Config → ℕ → ℕ → Result (ℕ × List ℕ) → Result DeliverResult
settled c started_at finished_at (ok (status, raw)) = ok (record {
  status = status;
  body = take c.max_response_body_bytes raw;
  latency_ms = finished_at - started_at;
})
settled c started_at finished_at (err f) = err (as_deliver_error f)

module _ {r : Redis} {b : Bull} where
  abbrev pub receive : M r b (ℕ × List ℕ)
  receive = do answer ← asks (λ e step. e.response step); await λ now s. (ok answer, s)

  -- Whether the lock was lost while the request was under way, and the request's outcome.
  unfoldable pub deliver : Config → Post → M r b Bool → M r b (Bool × Result DeliverResult)
  unfolding as_deliver_error
  deliver c post during = do
    started_at ← date_now
    emit (λ s. record s { posts = post ∷ s.posts })
    lock_lost ← during
    answer ← capture receive
    finished_at ← date_now
    pure (lock_lost, settled c started_at finished_at answer)
