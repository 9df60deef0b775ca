-- ===== src/Db/Reads.antt =====
-- db/deliveries.repo.ts: the queries behind the read routes. Rows keep their times as the tables have
-- them; what the driver and Postgres make of texts and times are parameters.
pub mod Detail
pub mod Listing
pub mod DlqListing
use webhook_delivery_engine.Prelude.{
  leb, some, [], ◌==◌, if◌then◌else◌, ◌∷◌, ◌||◌, none, false, ltb, true, ◌&&◌, String, Bool, List,
  Option, ℕ,
}
use webhook_delivery_engine.Db.{dlq, find_event, Transition, Event, Db, status_eq, Status, Delivery}
use webhook_delivery_engine.Redis.{Redis}
use webhook_delivery_engine.Exec.{◌>>=◌, throw, thrown, ok, err, pure, await, Result, M, Thrown}
use webhook_delivery_engine.Paging.{below, page_where, Page, Cursor}
use webhook_delivery_engine.Queue.{Bull}

-- A `Date` of JavaScript.
pub data JsDate : Type 0 where
  date : ℕ → JsDate
  invalid_date : JsDate

-- `timestamptz` and `uuid` are the casts of a text, `uuid_text` and `text_lt` are `id::text` and `<`
-- on texts; `to_date` is how the driver reads a timestamp, `to_iso_string` and `new_date` are
-- those of a Date. A cast that fails is an error of the driver.
pub record Casts : Type 0 where
  pub timestamptz : String → Option ℕ
  pub uuid : String → Option ℕ
  pub uuid_text : ℕ → String
  pub text_lt : String → String → Bool
  pub to_date : ℕ → ℕ
  pub to_iso_string : ℕ → String
  pub new_date : String → JsDate
  pub cast_error : Thrown
  pub range_error : Thrown

pub record TextCursor : Type 0 where
  pub updated_at : String
  pub id : String

pub record DlqCursor : Type 0 where
  pub updated_at : JsDate
  pub id : String

pub record DeliveryListRow : Type 0 where
  pub id : ℕ
  pub event_id : ℕ
  pub endpoint_id : ℕ
  pub event_type : String
  pub status : Status
  pub attempt_count : ℕ
  pub next_attempt_at : Option ℕ
  pub created_at : ℕ
  pub updated_at : ℕ

pub record DeliveryListFilters : Type 0 where
  pub statuses : List Status
  pub endpoint_id : Option ℕ
  pub from : Option JsDate
  pub to : Option JsDate

-- A row of the DLQ: the columns of a listed row, and the time of its newest transition to DLQ.
pub record DlqRow : Type 0 where
  pub listed : DeliveryListRow
  pub dlq_entered_at : ℕ

abbrev pub list_row : Delivery → Event → DeliveryListRow
list_row d ev = record {
  id = d.id;
  event_id = d.event_id;
  endpoint_id = d.endpoint_id;
  event_type = ev.event_type;
  status = d.status;
  attempt_count = d.attempt_count;
  next_attempt_at = d.next_attempt_at;
  created_at = d.created_at;
  updated_at = d.updated_at;
}

abbrev pub add_listed : Delivery → Option Event → List DeliveryListRow → List DeliveryListRow
add_listed d none rows = rows
add_listed d (some ev) rows = list_row d ev ∷ rows

-- FROM deliveries d JOIN events ev ON ev.id = d.event_id
unfoldable pub listed_rows : List Event → List Delivery → List DeliveryListRow
listed_rows events [] = []
listed_rows events (d ∷ ds) = add_listed d (find_event d.event_id events) (listed_rows events ds)

-- `status = ANY($1)`, where there are statuses to choose from
abbrev pub has_status : Status → List Status → Bool
has_status s [] = false
has_status s (t ∷ ts) = status_eq s t || has_status s ts

abbrev pub status_condition : List Status → Status → Bool
status_condition [] s = true
status_condition (t ∷ ts) s = has_status s (t ∷ ts)

abbrev pub endpoint_condition : Option ℕ → ℕ → Bool
endpoint_condition none id = true
endpoint_condition (some wanted) id = id == wanted

abbrev pub from_condition : Option ℕ → ℕ → Bool
from_condition none created_at = true
from_condition (some t) created_at = leb t created_at

abbrev pub to_condition : Option ℕ → ℕ → Bool
to_condition none created_at = true
to_condition (some t) created_at = leb created_at t

-- The WHERE clause of `list`, without the cursor's condition.
unfoldable pub is_listed : List Status → Option ℕ → Option ℕ → Option ℕ → DeliveryListRow → Bool
is_listed statuses endpoint_id from to row =
    status_condition statuses row.status
    && endpoint_condition endpoint_id row.endpoint_id
    && from_condition from row.created_at
    && to_condition to row.created_at

-- `(d.updated_at, d.id::text) < ($1::timestamptz, $2::text)`
abbrev pub below_text : Casts → ℕ → String → DeliveryListRow → Bool
below_text k t id row =
    ltb row.updated_at t || (row.updated_at == t && k.text_lt (k.uuid_text row.id) id)

abbrev pub list_page : (DeliveryListRow → Bool) → ℕ → Db → Page DeliveryListRow
list_page p limit db =
    page_where (λ x. x.updated_at) (λ x. x.id) p limit (listed_rows db.events db.deliveries)

abbrev pub list_below :
    Casts → (DeliveryListRow → Bool) → String → Option ℕ → ℕ → Db → Result (Page DeliveryListRow)
list_below k p id none limit db = err (thrown k.cast_error)
list_below k p id (some t) limit db = ok (list_page (λ x. p x && below_text k t id x) limit db)

unfoldable pub select_list :
    Casts → (DeliveryListRow → Bool) → Option TextCursor → ℕ → Db → Result (Page DeliveryListRow)
select_list k p none limit db = ok (list_page p limit db)
select_list k p (some c) limit db = list_below k p c.id (k.timestamptz c.updated_at) limit db

-- The newest transition of a delivery to DLQ.
unfoldable pub dlq_entry : ℕ → List Transition → Option ℕ
dlq_entry id [] = none
dlq_entry id (t ∷ rows) =
    let rest = dlq_entry id rows in
    if (t.delivery_id == id) && status_eq t.to_status dlq then some t.created_at else rest

abbrev pub add_dlq : DeliveryListRow → Option ℕ → List DlqRow → List DlqRow
add_dlq x none rows = rows
add_dlq x (some t) rows = record { listed = x; dlq_entered_at = t } ∷ rows

-- JOIN LATERAL (...) dlq_t ON true
unfoldable pub dlq_rows : List Transition → List DeliveryListRow → List DlqRow
unfolding dlq_entry
dlq_rows transitions [] = []
dlq_rows transitions (x ∷ xs) = add_dlq x (dlq_entry x.id transitions) (dlq_rows transitions xs)

abbrev pub is_dlq : DlqRow → Bool
is_dlq x = status_eq x.listed.status dlq

abbrev pub dlq_page : Option Cursor → ℕ → Db → Page DlqRow
dlq_page cursor limit db =
    page_where (λ x. x.listed.updated_at) (λ x. x.listed.id)
      (λ x. is_dlq x && below (λ y. y.listed.updated_at) (λ y. y.listed.id) cursor x) limit
      (dlq_rows db.transitions (listed_rows db.events db.deliveries))

abbrev pub dlq_below : Casts → JsDate → Option ℕ → ℕ → Db → Result (Page DlqRow)
dlq_below k (date t) (some id) limit db =
    ok (dlq_page (some (record { updated_at = t; id = id })) limit db)
dlq_below k _ _ limit db = err (thrown k.cast_error)

unfoldable pub select_dlq : Casts → Option DlqCursor → ℕ → Db → Result (Page DlqRow)
select_dlq k none limit db = ok (dlq_page none limit db)
select_dlq k (some c) limit db = dlq_below k c.updated_at (k.uuid c.id) limit db

module _ {r : Redis} {b : Bull} where
  -- `toISOString()` of a filter's bound, which throws a RangeError for an invalid date.
  abbrev pub bound : Casts → Option JsDate → M r b (Option ℕ)
  bound k none = pure none
  bound k (some (date t)) = pure (some t)
  bound k (some invalid_date) = throw (thrown k.range_error)

  unfoldable pub list :
      Casts → DeliveryListFilters → Option TextCursor → ℕ → M r b (Page DeliveryListRow)
  unfolding select_list
  list k filters cursor limit = do
    from ← bound k filters.from
    to ← bound k filters.to
    await λ now s. (
      select_list k (is_listed filters.statuses filters.endpoint_id from to) cursor limit s.db,
      s,
    )

  unfoldable pub list_dlq : Casts → Option DlqCursor → ℕ → M r b (Page DlqRow)
  unfolding select_dlq
  list_dlq k cursor limit = await λ now s. (select_dlq k cursor limit s.db, s)
