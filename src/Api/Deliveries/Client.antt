-- ===== src/Api/Deliveries/Client.antt =====
-- A client of GET /v1/deliveries that follows `next_cursor` from the first page on, undisturbed.
use mathlib.Core.Option
use webhook_delivery_engine.Prelude.{
  arith, ap, ◌∙◌, ◌≤◌, length, ◌+◌, refl, ◌≡◌, zero, ◌++◌, suc, [], List, some, Bool, String, ◌≢◌,
  none, Option, ℕ,
}
use webhook_delivery_engine.Redis.{Redis}
use webhook_delivery_engine.Db.Reads.{
  list, DeliveryListFilters, bound, is_listed, invalid_date, date, DeliveryListRow, Casts, JsDate,
}
use webhook_delivery_engine.Api.Deliveries.{
  other_limit, missing_limit, number_limit, LimitParam, list_limit, cursor_after, missing_uuid, ok,
  get_deliveries, endpoint_filter, issue, read_cursor, valid_statuses, valid_uuid, other_uuid,
  ListQuery, UuidParam,
}
use webhook_delivery_engine.Queue.{Bull}
use webhook_delivery_engine.Db.Reads.Listing.{
  walk-ordered, ordered, IsKeyed, IsApart, select_list-page_of, selected, issued, IsCasts,
}
use webhook_delivery_engine.Api.Cursor.{
  decode-encode_cursor, encode_cursor-filled, IsCursorCodec, CursorCodec,
}
use webhook_delivery_engine.Exec.{await, smooth, ◌>>=◌, Run, throw, pure, Inputs, M}
use webhook_delivery_engine.Paging.{go_on, walk, page_of, Page, Cursor}
use webhook_delivery_engine.Db.{Db}

module _ {r : Redis} {b : Bull} (k : Casts) (j : CursorCodec) where
  abbrev rest_of :
      Option String → (String → M r b (List DeliveryListRow)) → M r b (List DeliveryListRow)
  rest_of none rest = pure []
  rest_of (some c) rest = rest c

  -- With fuel for the pages.
  unfoldable pub client : ℕ → ListQuery → Option String → M r b (List DeliveryListRow)
  client zero q cursor = pure []
  client (suc n) q cursor = do
    reply ← get_deliveries k j (record q { cursor = cursor })
    rest ← rest_of reply.next_cursor λ c. client n q (some c)
    pure (reply.data_rows ++ rest)

-- What a query asks for, once the schema has read it.
abbrev pub filter_of : UuidParam → Option ℕ
filter_of missing_uuid = none
filter_of other_uuid = none
filter_of (valid_uuid id) = some id

abbrev pub time_of : JsDate → Option ℕ
time_of (date t) = some t
time_of invalid_date = none

abbrev pub bound_of : Casts → Option String → Option ℕ
bound_of k none = none
bound_of k (some s) = time_of (k.new_date s)

abbrev pub asked : Casts → ListQuery → DeliveryListRow → Bool
asked k q =
    is_listed (valid_statuses q.status) (filter_of q.endpoint_id) (bound_of k q.from)
      (bound_of k q.to)

abbrev pub IsValidBound : Casts → Option String → Type 0
IsValidBound k none = Unit
IsValidBound k (some s) = k.new_date s ≢ invalid_date

-- No part of the query is refused.
abbrev pub IsValidQuery : Casts → ListQuery → Type 0
IsValidQuery k q = (q.endpoint_id ≢ other_uuid) × IsValidBound k q.from × IsValidBound k q.to

abbrev page_at : Casts → ListQuery → Option Cursor → Db → Page DeliveryListRow
page_at k q cursor db =
    page_of (λ x. x.updated_at) (λ x. x.id) cursor (list_limit q.limit) (selected (asked k q) db)

abbrev filters_at : Casts → ListQuery → DeliveryListFilters
filters_at k q = record {
  statuses = valid_statuses q.status;
  endpoint_id = filter_of q.endpoint_id;
  from = Option.map k.new_date q.from;
  to = Option.map k.new_date q.to;
}

list_limit-positive : (l : LimitParam) → 1 ≤ list_limit l
unfolding list_limit
list_limit-positive missing_limit = omega arith
list_limit-positive other_limit = omega arith
list_limit-positive (number_limit n) = ground arith

module _ {r : Redis} {b : Bull} (k : Casts) (casts : IsCasts k) (j : CursorCodec)
    (laws : IsCursorCodec j) (i : Inputs) where
  bound-valid :
      (s : Option String)
      → IsValidBound k s
      → (run : Run r b)
      → bound k (Option.map k.new_date s) (smooth i) run ≡ (ok (bound_of k s), run)
  unfolding pure throw
  bound-valid none h run = refl
  bound-valid (some s) h run = read (k.new_date s) h
    where
      read :
          (d : JsDate) → d ≢ invalid_date → bound k (some d) (smooth i) run ≡ (ok (time_of d), run)
      read (date t) h = refl
      read invalid_date h = absurd (h refl)

  endpoint_filter-valid :
      (u : UuidParam)
      → u ≢ other_uuid
      → (run : Run r b) → endpoint_filter u (smooth i) run ≡ (ok (filter_of u), run)
  unfolding pure throw
  endpoint_filter-valid missing_uuid h run = refl
  endpoint_filter-valid other_uuid h run = absurd (h refl)
  endpoint_filter-valid (valid_uuid id) h run = refl

  pub read_cursor-issue :
      (c : Option Cursor) (run : Run r b)
      → read_cursor j (issue k j c) (smooth i) run ≡ (ok (Option.map (issued k) c), run)
  unfolding read_cursor issue pure throw ◌>>=◌
  read_cursor-issue none run = refl
  read_cursor-issue (some c) run =
      rw (encode_cursor-filled j laws (issued k c), decode-encode_cursor j laws (issued k c)) refl

  abbrev after_step : Run r b → Run r b
  after_step run = record run { step = run.step + 1 }

  list-page :
      (q : ListQuery)
      → IsValidQuery k q
      → (cursor : Option Cursor) (run : Run r b)
      → list k (filters_at k q) (Option.map (issued k) cursor) (list_limit q.limit) (smooth i) run
        ≡ (ok (page_at k q cursor run.shared.db), after_step run)
  unfolding list ◌>>=◌ await
  list-page q h cursor run =
      rw
        (
          bound-valid q.from h.1 run,
          bound-valid q.to h.2 run,
          select_list-page_of k casts (asked k q) cursor (list_limit q.limit) run.shared.db,
        )
        refl

  -- The answer to the cursor of any page, or to none.
  pub get_deliveries-page :
      (q : ListQuery)
      → IsValidQuery k q
      → (cursor : Option Cursor) (run : Run r b)
      → get_deliveries k j (record q { cursor = issue k j cursor }) (smooth i) run ≡ (
        ok (record {
          data_rows = (page_at k q cursor run.shared.db).rows;
          next_cursor = issue k j (
              cursor_after
                (λ x. x.updated_at)
                (λ x. x.id)
                k.to_date
                (page_at k q cursor run.shared.db));
        }),
        after_step run,
      )
  unfolding get_deliveries ◌>>=◌ pure
  get_deliveries-page q h cursor run =
      rw
        (
          endpoint_filter-valid q.endpoint_id h.0 run,
          read_cursor-issue cursor run,
          list-page q h cursor run,
        )
        refl

  rest_of-go_on :
      (rows : List DeliveryListRow) (m : Option String → M r b (List DeliveryListRow))
      (w : Option Cursor → List DeliveryListRow) (run : Run r b)
      → ((c : Cursor) → (m (issue k j (some c)) (smooth i) run).0 ≡ ok (w (some c)))
      → (next : Option Cursor)
      → ((rest_of k j (issue k j next) (λ c. m (some c)) >>= λ rest. pure (rows ++ rest))
          (smooth i)
          run).0
        ≡ ok (rows ++ go_on (λ x. x.updated_at) (λ x. x.id) next λ c. w (some c))
  unfolding ◌>>=◌ pure issue
  rest_of-go_on rows m w run h none = refl
  rest_of-go_on rows m w run h (some c) = rw (h c) refl

  -- The pages that the client gets are those of the rows themselves.
  client-walk :
      (q : ListQuery)
      → IsValidQuery k q
      → (n : ℕ) (cursor : Option Cursor) (run : Run r b)
      → (client k j n q (issue k j cursor) (smooth i) run).0
        ≡ ok (
            walk
              (λ x. x.updated_at)
              (λ x. x.id)
              n
              k.to_date
              (list_limit q.limit)
              cursor
              (selected (asked k q) run.shared.db))
  unfolding client walk pure ◌>>=◌
  client-walk q h zero cursor run = refl
  client-walk q h (suc n) cursor run = rw (get_deliveries-page q h cursor run) (
      rest_of-go_on (page_at k q cursor run.shared.db).rows (client k j n q)
        (λ next.
          walk (λ x. x.updated_at) (λ x. x.id) n k.to_date (list_limit q.limit) next
            (selected (asked k q) run.shared.db))
        (after_step run) (λ c. client-walk q h n (some c) (after_step run))
        (cursor_after (λ x. x.updated_at) (λ x. x.id) k.to_date (page_at k q cursor run.shared.db)))

  -- A client that asks for the first page and goes on with each `next_cursor`, undisturbed, with a query
  -- whose endpoint and dates are valid: with one request more than there are deliveries it comes to the
  -- end, and its rows are those that the filters select, each once, in descending order, if the ids are
  -- unique and the cut of times to milliseconds in the cursors changes nothing about which deliveries come
  -- after which.
  pub client-ordered :
      (q : ListQuery)
      → IsValidQuery k q
      → (run : Run r b) (n : ℕ) → IsApart k run.shared.db
      → IsKeyed run.shared.db
      → length run.shared.db.deliveries ≤ n
      → (client k j (suc n) q none (smooth i) run).0 ≡ ok (ordered (asked k q) run.shared.db)
  unfolding issue
  client-ordered q h run n apart keyed le =
      client-walk q h (suc n) none run
      ∙ ap ok (
          walk-ordered k (asked k q) (list_limit q.limit) n run.shared.db
            (list_limit-positive q.limit) apart keyed le)
