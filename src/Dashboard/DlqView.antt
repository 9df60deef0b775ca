-- ===== src/Dashboard/DlqView.antt =====
-- dashboard/src/components/DlqView.tsx with `usePoll` and `apiFetch` of dashboard/src/api.ts: the rows of
-- the DLQ and the button that retries one of them.
pub mod Retry
use webhook_delivery_engine.Exec.{ErrorCode}
use webhook_delivery_engine.Db.{Status}
use webhook_delivery_engine.Prelude.{
  true, ◌||◌, ◌==◌, not, ◌++◌, if◌then◌else◌, String, false, Bool, where_rows, ◌∷◌, some, ℕ, List,
  none, Option, [],
}
use webhook_delivery_engine.Api.Deliveries.{ListReply}
use webhook_delivery_engine.Api.Errors.{app_code, of_route, handle_error, ErrorReply, PublicCode}
use webhook_delivery_engine.Exec.{capture, ◌>>=◌, pure, M, err, ok, Result}
use webhook_delivery_engine.Redis.{Redis}
use webhook_delivery_engine.Queue.{Bull}
use webhook_delivery_engine.Api.Dlq.{post_retry, RetryReply}
use webhook_delivery_engine.Db.Reads.{DlqRow}
use webhook_delivery_engine.Config.{Config}
use webhook_delivery_engine.Api.Query.{truthy}

-- What a poll keeps of its last call.
pub record Poll (A : Type 0) : Type 0 where
  pub latest : Option A
  pub error : Option ErrorReply

abbrev pub new_poll : {A : Type 0} → Poll A
new_poll = record { latest = none; error = none }

-- apiFetch: the body, or the error that the error handler of the API answered with.
pub data Fetched (A : Type 0) : Type 0 where
  body : A → Fetched A
  refusal : ErrorReply → Fetched A

unfoldable pub api_fetch : {A : Type 0} → Result A → Fetched A
api_fetch (ok a) = body a
api_fetch (err f) = refusal (handle_error (of_route f))

-- The `then` and the `catch` of usePoll.
unfoldable pub poll_settled : {A : Type 0} → Fetched A → Poll A → Poll A
poll_settled (body a) p = record { latest = some a; error = none }
poll_settled (refusal reply) p = record p { error = some reply }

-- 'Not in DLQ — current status: ...', or the message of the error.
pub data Toast : Type 0 where
  no_longer_in_dlq : Status → Toast
  message_of : ErrorReply → Toast

abbrev pub toast_by : PublicCode → ErrorReply → Toast
toast_by (app_code (ErrorCode.not_in_dlq current_status)) reply = no_longer_in_dlq current_status
toast_by _ reply = message_of reply

unfoldable pub retry_toast : ErrorReply → Toast
retry_toast reply = toast_by reply.code reply

pub record DlqView : Type 0 where
  pub rows : List DlqRow
  pub next_cursor : Option String
  pub loading_more : Bool
  pub toast : Option Toast
  pub retrying : List ℕ
  pub poll : Poll (ListReply DlqRow)

abbrev pub new_view : DlqView
new_view = record {
  rows = [];
  next_cursor = none;
  loading_more = false;
  toast = none;
  retrying = [];
  poll = new_poll;
}

-- The answer to a poll: its page replaces the rows.
abbrev pub show_page : Fetched (ListReply DlqRow) → DlqView → DlqView
show_page (body page) v = record v { rows = page.data_rows; next_cursor = page.next_cursor }
show_page (refusal reply) v = v

unfoldable pub polled_page : Fetched (ListReply DlqRow) → DlqView → DlqView
unfolding poll_settled
polled_page a v = record (show_page a v) { poll = poll_settled a v.poll }

-- A click on `load more`: whether it asks for a page, and the answer.
abbrev pub asks_more : Option String → Bool → Bool
asks_more none loading = false
asks_more (some c) loading = not loading

unfoldable pub start_more : DlqView → Option String × DlqView
start_more v =
    if asks_more (truthy v.next_cursor) v.loading_more
    then (v.next_cursor, record v { loading_more = true })
    else (none, v)

unfoldable pub more_settled : Fetched (ListReply DlqRow) → DlqView → DlqView
more_settled (body page) v = record v {
  rows = v.rows ++ page.data_rows;
  next_cursor = page.next_cursor;
  loading_more = false;
}
more_settled (refusal reply) v = record v { loading_more = false }

abbrev pub has_id : ℕ → List ℕ → Bool
has_id id [] = false
has_id id (j ∷ js) = j == id || has_id id js

abbrev pub without_id : ℕ → List ℕ → List ℕ
without_id id = where_rows (λ j. not (j == id))

unfoldable pub start_retry : ℕ → DlqView → DlqView
start_retry id v = record v { retrying = id ∷ without_id id v.retrying }

-- The `try`, `catch` and `finally` of a retry.
unfoldable pub retry_settled : ℕ → Fetched RetryReply → DlqView → DlqView
unfolding retry_toast
retry_settled id (body reply) v = record v {
  rows = where_rows (λ x. not (x.listed.id == id)) v.rows;
  retrying = without_id id v.retrying;
}
retry_settled id (refusal reply) v = record v {
  toast = some (retry_toast reply);
  retrying = without_id id v.retrying;
}

-- The timer of a toast.
abbrev pub toast_expired : DlqView → DlqView
toast_expired v = record v { toast = none }

-- The button of a row with the API behind it; it is disabled while its retry is under way.
unfoldable pub retry_row_of : {r : Redis} {b : Bull} → Config → ℕ → DlqView → M r b DlqView
unfolding start_retry retry_settled api_fetch
retry_row_of c id v = if has_id id v.retrying then pure v else do
  answer ← capture (post_retry c id)
  pure (retry_settled id (api_fetch answer) (start_retry id v))
