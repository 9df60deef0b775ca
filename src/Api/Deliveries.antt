-- ===== src/Api/Deliveries.antt =====
-- api/routes/deliveries.ts: GET /v1/deliveries and GET /v1/deliveries/:id. The parts of the query's
-- texts come as the schema sees them: `status` split at the commas, trimmed and in upper case.
pub mod Client
use mathlib.Core.Option
use webhook_delivery_engine.Prelude.{
  [], none, some, str_eq, ◌∷◌, ◌&&◌, leb, Option, Bool, String, if◌then◌else◌, List, ℕ,
}
use webhook_delivery_engine.Db.Reads.{list, DeliveryListRow, TextCursor, Casts}
use webhook_delivery_engine.Redis.{Redis}
use webhook_delivery_engine.Api.Cursor.{decode_cursor, encode_cursor, CursorCodec}
use webhook_delivery_engine.Queue.{Bull}
use webhook_delivery_engine.Db.{dlq, failed, delivered, delivering, pending, Status}
use webhook_delivery_engine.Paging.{cursor_after, Cursor}
use webhook_delivery_engine.Exec.{
  delivery_not_found, ◌>>=◌, validation_error, app_error, throw, err, pure, ok, Result, M,
}
use webhook_delivery_engine.Db.Reads.Detail.{get_detail, DeliveryDetail}

-- A query's limit, as a number: missing, a natural number, or anything else.
pub data LimitParam : Type 0 where
  missing_limit other_limit : LimitParam
  number_limit : ℕ → LimitParam

-- A query's uuid.
pub data UuidParam : Type 0 where
  missing_uuid other_uuid : UuidParam
  valid_uuid : ℕ → UuidParam

-- `from` and `to` are `none` where they are missing or empty.
pub record ListQuery : Type 0 where
  pub status : List String
  pub endpoint_id : UuidParam
  pub from : Option String
  pub to : Option String
  pub limit : LimitParam
  pub cursor : Option String

pub record ListReply (A : Type 0) : Type 0 where
  pub data_rows : List A
  pub next_cursor : Option String

-- VALID_STATUSES
abbrev pub valid_status : String → Option Status
valid_status s =
    if str_eq s "PENDING"
    then some pending
    else if str_eq s "DELIVERING"
    then some delivering
    else if str_eq s "DELIVERED"
    then some delivered
    else if str_eq s "FAILED"
    then some failed
    else if str_eq s "DLQ"
    then some dlq
    else none

abbrev pub keep_status : Option Status → List Status → List Status
keep_status none rest = rest
keep_status (some s) rest = s ∷ rest

unfoldable pub valid_statuses : List String → List Status
valid_statuses [] = []
valid_statuses (s ∷ ss) = keep_status (valid_status s) (valid_statuses ss)

abbrev pub in_range : ℕ → Bool
in_range n = leb 1 n && leb n 200

-- int().min(1).max(200).default(50).catch(50)
unfoldable pub list_limit : LimitParam → ℕ
list_limit missing_limit = 50
list_limit other_limit = 50
list_limit (number_limit n) = if in_range n then n else 50

module _ {r : Redis} {b : Bull} where
  abbrev pub endpoint_filter : UuidParam → M r b (Option ℕ)
  endpoint_filter missing_uuid = pure none
  endpoint_filter other_uuid = throw (app_error 400 validation_error)
  endpoint_filter (valid_uuid id) = pure (some id)

  abbrev pub from_result : {A : Type 0} → Result A → M r b A
  from_result (ok a) = pure a
  from_result (err f) = throw f

  -- An empty cursor counts as none.
  unfoldable pub read_cursor : CursorCodec → Option String → M r b (Option TextCursor)
  read_cursor j none = pure none
  read_cursor j (some value) =
      if str_eq value ""
      then pure none
      else do c ← from_result (decode_cursor j value); pure (some c)

-- `encodeCursor` of the last row, if there are more.
unfoldable pub issue : Casts → CursorCodec → Option Cursor → Option String
issue k j none = none
issue k j (some c) =
    some (
      encode_cursor j (record { updated_at = k.to_iso_string c.updated_at; id = k.uuid_text c.id }))

module _ {r : Redis} {b : Bull} (k : Casts) (j : CursorCodec) where
  unfoldable pub get_deliveries : ListQuery → M r b (ListReply DeliveryListRow)
  unfolding list_limit valid_statuses issue
  get_deliveries q = do
    endpoint_id ← endpoint_filter q.endpoint_id
    cursor ← read_cursor j q.cursor
    page ←
        list k
          (record {
            statuses = valid_statuses q.status;
            endpoint_id = endpoint_id;
            from = Option.map k.new_date q.from;
            to = Option.map k.new_date q.to;
          })
          cursor (list_limit q.limit)
    pure (record {
      data_rows = page.rows;
      next_cursor = issue k j (cursor_after (λ x. x.updated_at) (λ x. x.id) k.to_date page);
    })

module _ {r : Redis} {b : Bull} where
  abbrev pub or_not_found : Option DeliveryDetail → M r b DeliveryDetail
  or_not_found none = throw (app_error 404 delivery_not_found)
  or_not_found (some detail) = pure detail

  -- The id is `none` where the text is no uuid.
  unfoldable pub get_delivery : Option ℕ → M r b DeliveryDetail
  get_delivery none = throw (app_error 404 delivery_not_found)
  get_delivery (some id) = do detail ← get_detail id; or_not_found detail
