-- ===== src/Api/Dlq.antt =====
-- api/routes/dlq.ts: GET /v1/dlq and POST /v1/dlq/:deliveryId/retry.
pub mod Listing
use webhook_delivery_engine.Paging.{cursor_after}
use webhook_delivery_engine.Prelude.{none, some, if◌then◌else◌, String, Option, ℕ, length}
use webhook_delivery_engine.Config.{Config}
use webhook_delivery_engine.Redis.{Redis}
use webhook_delivery_engine.Queue.{Bull, JobId, retry}
use webhook_delivery_engine.Db.{Status, pending}
use webhook_delivery_engine.Db.Deliveries.{
  RetryFromDlqResult, retried, not_found, not_in_dlq, retry_from_dlq,
}
use webhook_delivery_engine.Exec.{
  validation_error, M, app_error, ErrorCode, pure, throw, date_now, queue_command, ◌>>=◌, ◌>>◌,
}
use webhook_delivery_engine.Db.Reads.{list_dlq, DlqRow, DlqCursor, TextCursor, Casts}
use webhook_delivery_engine.Api.Deliveries.{
  issue, other_limit, missing_limit, in_range, read_cursor, ListReply, number_limit, LimitParam,
}
use webhook_delivery_engine.Api.Cursor.{CursorCodec}

pub record RetryReply : Type 0 where
  pub delivery_id : ℕ
  pub status : Status
  pub retry_job_id : JobId
  pub attempt_budget : ℕ

module _ {r : Redis} {b : Bull} where
  abbrev pub answer_retry : Config → ℕ → RetryFromDlqResult → M r b RetryReply
  answer_retry c delivery_id not_found = throw (app_error 404 ErrorCode.delivery_not_found)
  answer_retry c delivery_id (not_in_dlq current_status) =
      throw (app_error 409 (ErrorCode.not_in_dlq current_status))
  answer_retry c delivery_id retried = do
    now ← date_now
    queue_command (b.add (retry delivery_id now) delivery_id)
    pure (record {
      delivery_id = delivery_id;
      status = pending;
      retry_job_id = retry delivery_id now;
      attempt_budget = length c.backoff_base_ms;
    })

  unfoldable pub post_retry : Config → ℕ → M r b RetryReply
  post_retry c delivery_id = do
    result ← retry_from_dlq delivery_id
    answer_retry c delivery_id result

pub record DlqQuery : Type 0 where
  pub limit : LimitParam
  pub cursor : Option String

-- `new Date(cursor.updatedAt)`
abbrev pub as_dlq_cursor : Casts → Option TextCursor → Option DlqCursor
as_dlq_cursor k none = none
as_dlq_cursor k (some c) = some (record { updated_at = k.new_date c.updated_at; id = c.id })

module _ {r : Redis} {b : Bull} where
  -- int().min(1).max(200).default(50)
  unfoldable pub dlq_limit : LimitParam → M r b ℕ
  dlq_limit missing_limit = pure 50
  dlq_limit other_limit = throw (app_error 400 validation_error)
  dlq_limit (number_limit n) = if in_range n then pure n else throw (app_error 400 validation_error)

  unfoldable pub get_dlq : Casts → CursorCodec → DlqQuery → M r b (ListReply DlqRow)
  get_dlq k j q = do
    limit ← dlq_limit q.limit
    cursor ← read_cursor j q.cursor
    page ← list_dlq k (as_dlq_cursor k cursor) limit
    pure (record {
      data_rows = page.rows;
      next_cursor =
          issue k j (cursor_after (λ x. x.listed.updated_at) (λ x. x.listed.id) k.to_date page);
    })
