-- ===== src/Api/Dlq/Listing.antt =====
-- GET /v1/dlq beside GET /v1/deliveries with the status DLQ.
use mathlib.Core.Option
use webhook_delivery_engine.Paging.{Cursor, last_row, Page, cursor_after}
use webhook_delivery_engine.Prelude.{
  sym, ◌∙◌, ap, some, Option, none, true, refl, arith, [], ◌≡◌, ◌∷◌, List, ℕ,
}
use webhook_delivery_engine.Exec.{await, smooth, throw, Run, pure, ◌>>=◌, Inputs, err, ok, Result}
use webhook_delivery_engine.Api.Dlq.{as_dlq_cursor, dlq_limit, get_dlq, DlqQuery}
use webhook_delivery_engine.Api.Deliveries.{
  valid_statuses, get_deliveries, issue, list_limit, other_limit, missing_limit, missing_uuid,
  in_range, ListQuery, ListReply, number_limit, LimitParam,
}
use webhook_delivery_engine.Redis.{Redis}
use webhook_delivery_engine.Db.Reads.{
  dlq_page, list_dlq, select_dlq, DeliveryListRow, Casts, DlqRow,
}
use webhook_delivery_engine.Queue.{Bull}
use webhook_delivery_engine.Db.Reads.DlqListing.{dlq_page-page_of, listed_of, forget}
use webhook_delivery_engine.Db.Reads.Listing.{issued, IsKeyed, IsCasts}
use webhook_delivery_engine.Api.Cursor.{IsCursorCodec, CursorCodec}
use webhook_delivery_engine.Db.{Db}
use webhook_delivery_engine.Db.Audit.{IsAudited}
use webhook_delivery_engine.Api.Deliveries.Client.{
  get_deliveries-page, IsValidQuery, read_cursor-issue,
}

abbrev pub forget_reply : Result (ListReply DlqRow) → Result (ListReply DeliveryListRow)
forget_reply (ok reply) =
    ok (record { data_rows = listed_of reply.data_rows; next_cursor = reply.next_cursor })
forget_reply (err f) = err f

-- GET /v1/deliveries?status=DLQ
abbrev pub dlq_query : DlqQuery → ListQuery
dlq_query q = record {
  status = "DLQ" ∷ [];
  endpoint_id = missing_uuid;
  from = none;
  to = none;
  limit = q.limit;
  cursor = q.cursor;
}

-- Limits that both routes take as they are.
abbrev pub IsLimit : LimitParam → Type 0
IsLimit missing_limit = Unit
IsLimit other_limit = ⊥
IsLimit (number_limit n) = in_range n ≡ true

last_row-listed_of :
    (xs : List DlqRow) → last_row (listed_of xs) ≡ Option.map (λ x. x.listed) (last_row xs)
last_row-listed_of [] = refl
last_row-listed_of (x ∷ []) = refl
last_row-listed_of (x ∷ y ∷ ys) = last_row-listed_of (y ∷ ys)

cursor_after-forget :
    (to_date : ℕ → ℕ) (p : Page DlqRow)
    → cursor_after (λ x. x.updated_at) (λ x. x.id) to_date (forget p)
      ≡ cursor_after (λ x. x.listed.updated_at) (λ x. x.listed.id) to_date p
unfolding cursor_after
cursor_after-forget to_date p = ground (arith, last_row-listed_of p.rows)

select_dlq-issued :
    (k : Casts) (casts : IsCasts k) (cursor : Option Cursor) (limit : ℕ) (db : Db)
    → select_dlq k (as_dlq_cursor k (Option.map (issued k) cursor)) limit db
      ≡ ok (dlq_page cursor limit db)
unfolding select_dlq
select_dlq-issued k casts none limit db = refl
select_dlq-issued k casts (some c) limit db =
    rw (casts.new_date-to_iso_string c.updated_at, casts.uuid-uuid_text c.id) refl

dlq_query-valid : (k : Casts) (q : DlqQuery) → IsValidQuery k (dlq_query q)
dlq_query-valid k q = (λ e. ground arith, tt, tt)

module _ {r : Redis} {b : Bull} (k : Casts) (casts : IsCasts k) (j : CursorCodec)
    (laws : IsCursorCodec j) (i : Inputs) where
  dlq_limit-list_limit :
      (l : LimitParam)
      → IsLimit l
      → (run : Run r b) → dlq_limit l (smooth i) run ≡ (ok (list_limit l), run)
  unfolding dlq_limit list_limit pure throw
  dlq_limit-list_limit missing_limit h run = refl
  dlq_limit-list_limit other_limit h run = absurd h
  dlq_limit-list_limit (number_limit n) h run = rw h refl

  get_dlq-page :
      (q : DlqQuery)
      → IsLimit q.limit
      → (cursor : Option Cursor) (run : Run r b)
      → (get_dlq k j (record q { cursor = issue k j cursor }) (smooth i) run).0
        ≡ ok (record {
          data_rows = (dlq_page cursor (list_limit q.limit) run.shared.db).rows;
          next_cursor = issue k j (
              cursor_after
                (λ x. x.listed.updated_at)
                (λ x. x.listed.id)
                k.to_date
                (dlq_page cursor (list_limit q.limit) run.shared.db));
        })
  unfolding get_dlq ◌>>=◌ pure list_dlq await
  get_dlq-page q h cursor run =
      rw
        (
          dlq_limit-list_limit q.limit h run,
          read_cursor-issue k casts j laws i cursor run,
          select_dlq-issued k casts cursor (list_limit q.limit) run.shared.db,
        )
        refl

  -- Undisturbed, with a valid limit and with no cursor or one that was issued, GET /v1/dlq answers with the
  -- rows and the `next_cursor` of GET /v1/deliveries?status=DLQ, if the ids are unique and the audit
  -- invariants hold.
  pub get_dlq-get_deliveries :
      (q : DlqQuery)
      → IsLimit q.limit
      → (cursor : Option Cursor) (run : Run r b) → IsAudited run.shared.db
      → IsKeyed run.shared.db
      → forget_reply (get_dlq k j (record q { cursor = issue k j cursor }) (smooth i) run).0
        ≡ (get_deliveries k j (dlq_query (record q { cursor = issue k j cursor })) (smooth i) run).0
  unfolding valid_statuses
  get_dlq-get_deliveries q h cursor run audited keyed =
      let same = dlq_page-page_of cursor (list_limit q.limit) run.shared.db audited keyed in
      ap forget_reply (get_dlq-page q h cursor run)
      ∙ (λ t. ok (record {
        data_rows = (same t).rows;
        next_cursor =
            (ap (issue k j) (
                sym (
                  cursor_after-forget k.to_date
                    (dlq_page cursor (list_limit q.limit) run.shared.db))
                ∙ ap (cursor_after (λ x. x.updated_at) (λ x. x.id) k.to_date) same))
              t;
      }))
      ∙ sym (
          ap (λ x. x.0)
            (get_deliveries-page k casts j laws i (dlq_query q) (dlq_query-valid k q) cursor run))
