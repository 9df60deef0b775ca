-- ===== src/Tests/Reading.antt =====
-- The read routes at concrete inputs.
use mathlib.Core.Option
use webhook_delivery_engine.Prelude.{refl, arith, ◌≡◌, some, none, [], ◌∷◌, ℕ}
use webhook_delivery_engine.Api.Deliveries.{
  valid_uuid, issue, number_limit, ListQuery, get_deliveries,
}
use webhook_delivery_engine.Db.{
  Actor, Reason, failed, dlq, find_endpoint, find_event, Transition, Db, find_delivery, Status,
}
use webhook_delivery_engine.Exec.{ok, start, smooth, Run}
use webhook_delivery_engine.Db.Rows.{has_success, last_status, down_from, numbers}
use webhook_delivery_engine.Paging.{last_row, Cursor}
use webhook_delivery_engine.Api.Deliveries.Client.{client-ordered, asked, client}
use webhook_delivery_engine.Api.Cursor.{decode-encode_cursor, encode_cursor, decode_cursor}
use webhook_delivery_engine.Tests.World.{world, inputs, row, tables}
use webhook_delivery_engine.Tests.Memory.{local_queue, memory}
use webhook_delivery_engine.Tests.Texts.{
  casts-IsCasts, cursor_codec-IsCursorCodec, cursor_codec, casts,
}
use webhook_delivery_engine.Api.Dlq.Listing.{get_dlq-get_deliveries, dlq_query, forget_reply}
use webhook_delivery_engine.Db.Reads.Detail.{get_detail, DeliveryDetail}
use webhook_delivery_engine.Api.Dlq.{DlqQuery, get_dlq}
use webhook_delivery_engine.Db.Audit.{IsAudited}
use webhook_delivery_engine.Db.Reads.Detail.Audited.{get_detail-audited, up_to, attempt_numbers}
use webhook_delivery_engine.Db.Reads.Listing.{ordered}
use webhook_delivery_engine.Db.Reads.{TextCursor}

-- Two deliveries in DLQ, one after the other.
abbrev moved : ℕ → Status → ℕ → Transition
moved id to now = record {
  delivery_id = id;
  from_status = some failed;
  to_status = to;
  reason = Reason.attempts_exhausted;
  actor = Actor.worker;
  created_at = now;
}

abbrev pub exhausted_db : Db
exhausted_db = record tables {
  deliveries =
      record (row dlq 0) { updated_at = 27 } ∷ record (row dlq 0) { id = 8; updated_at = 34 } ∷ [];
  transitions = moved 8 dlq 30 ∷ moved 7 dlq 20 ∷ tables.transitions;
}

exhausted_db-IsAudited : IsAudited exhausted_db
unfolding numbers down_from last_status has_success find_delivery
exhausted_db-IsAudited = record {
  numbered = λ id. ground arith;
  traced = λ id. ground arith;
  proved = λ id e. ground arith;
}

abbrev pub reader : Run memory local_queue
reader = start (record world { db = exhausted_db })

abbrev query_one : ListQuery
query_one = record {
  status = "DLQ" ∷ "NONSENSE" ∷ [];
  endpoint_id = valid_uuid 1;
  from = none;
  to = none;
  limit = number_limit 1;
  cursor = none;
}

abbrev cursor : Cursor
cursor = record { updated_at = 30; id = 8 }

abbrev dlq_cursor_query : DlqQuery
dlq_cursor_query = record {
  limit = number_limit 1;
  cursor = issue casts cursor_codec (some cursor);
}

abbrev text_cursor : TextCursor
text_cursor = record { updated_at = "2026-06-15T00:00:00.000Z"; id = "7" }

client-ordered_example :
    (client casts cursor_codec 3 query_one none (smooth inputs) reader).0
    ≡ ok (ordered (asked casts query_one) exhausted_db)
client-ordered_example =
    client-ordered casts casts-IsCasts cursor_codec cursor_codec-IsCursorCodec inputs query_one
      ((λ e. ground arith), tt, tt) reader 2 ((refl, (refl, tt)), ((refl, (refl, tt)), tt))
      ((refl, tt), (tt, tt)) (omega arith)

get_dlq-get_deliveries_example :
    forget_reply (get_dlq casts cursor_codec dlq_cursor_query (smooth inputs) reader).0
    ≡ (get_deliveries casts cursor_codec (dlq_query dlq_cursor_query) (smooth inputs) reader).0
get_dlq-get_deliveries_example =
    get_dlq-get_deliveries casts casts-IsCasts cursor_codec cursor_codec-IsCursorCodec inputs
      (record { limit = number_limit 1; cursor = none }) refl (some cursor) reader
      exhausted_db-IsAudited ((refl, tt), (tt, tt))

get_detail-audited_example :
    (detail : DeliveryDetail) × ((get_detail 8 (smooth inputs) reader).0 ≡ ok (some detail))
    × (detail.attempt_count ≡ 0)
    × (attempt_numbers detail.attempts ≡ up_to detail.attempt_count)
    × (Option.map (λ t. t.to_status) (last_row detail.transitions) ≡ some detail.status)
unfolding find_delivery find_event find_endpoint
get_detail-audited_example =
    get_detail-audited inputs 8 reader (record (row dlq 0) { id = 8; updated_at = 34 }) _ _
      exhausted_db-IsAudited refl refl refl

decode-encode_cursor_example :
    decode_cursor cursor_codec (encode_cursor cursor_codec text_cursor) ≡ ok text_cursor
decode-encode_cursor_example =
    decode-encode_cursor cursor_codec cursor_codec-IsCursorCodec text_cursor
