-- ===== src/Tests/Screens.antt =====
-- The dashboard at concrete inputs.
use Prim.Native.String as S
use Prim.Native.String.compare.{cons-nil}
use webhook_delivery_engine.Dashboard.DlqView.Retry.{retry_row_of-post_retry, IsRetried}
use webhook_delivery_engine.Api.Deliveries.{other_limit, number_limit}
use webhook_delivery_engine.Tests.World.{inputs}
use webhook_delivery_engine.Dashboard.Filters.{build_params, empty_filters, same_deps, Filters}
use webhook_delivery_engine.Prelude.{
  inl, inr, none, one_if, true, str_eq, if◌then◌else◌, ◌≡◌, [], ◌∷◌, ℕ, refl, some, List, String,
}
use webhook_delivery_engine.Db.{dlq, find_delivery}
use webhook_delivery_engine.Dashboard.Table.{
  rendered, polled, load_clicked, replied, TableEvent, Answer, table_after,
}
use webhook_delivery_engine.Dashboard.Filters.Asked.{list_query-build_params, query_of, IsReader}
use webhook_delivery_engine.Api.Query.{list_query, QueryReader}
use webhook_delivery_engine.Dashboard.Table.Coherent.{table_after-ShowsOnly, mores, ShowsOnly}
use webhook_delivery_engine.Dashboard.DlqView.{new_view, retry_row_of}
use webhook_delivery_engine.Config.{defaults}
use webhook_delivery_engine.Tests.Texts.{tally_size}
use webhook_delivery_engine.Exec.{ok, smooth}
use webhook_delivery_engine.Tests.Reading.{reader}
use webhook_delivery_engine.Dashboard.DlqView.Retry.{view_after}

-- The dead deliveries of the first endpoint.
abbrev dead : Filters
dead = record { statuses = "FAILED" ∷ "DLQ" ∷ []; endpoint_id = "a"; from = ""; to = "" }

abbrev query_reader : QueryReader
query_reader = record {
  uuid = λ s. some (tally_size s);
  coerce_number = λ s. if str_eq s "50" then number_limit 50 else other_limit;
  trim_upper = λ s. s;
}

abbrev to_iso : String → String
to_iso s = S.◌∷◌ "2" s

query_reader-IsReader : IsReader query_reader to_iso
query_reader-IsReader = record {
  coerce_number_lem = refl;
  trim_upper_lem = λ s known. refl;
  to_iso_filled = λ s. rw (cons-nil "2" s) refl;
}

list_query-build_params_example :
    list_query query_reader (build_params to_iso dead (some "c1"))
    ≡ query_of query_reader to_iso dead (some "c1")
list_query-build_params_example =
    list_query-build_params query_reader to_iso query_reader-IsReader dead (some "c1")
      (inr (inr (inr (inl refl))), (inr (inr (inr (inr refl))), tt))

-- Pages of numbers. The second page is asked for, then a poll is answered, then the second page.
abbrev page_one : Answer ℕ
page_one = ok (record { data_rows = 9 ∷ 8 ∷ []; next_cursor = some "c1" })

abbrev page_two : Answer ℕ
page_two = ok (record { data_rows = 7 ∷ 6 ∷ []; next_cursor = some "c2" })

abbrev page_three : Answer ℕ
page_three = ok (record { data_rows = 5 ∷ []; next_cursor = none })

abbrev past : List (TableEvent ℕ)
past = load_clicked ∷ replied 0 page_two ∷ load_clicked ∷ replied 0 page_one ∷ []

table_after-ShowsOnly_example :
    let t = table_after to_iso dead past in
    ShowsOnly to_iso
      (replied 0 page_three)
      t
      (table_after to_iso dead (replied 0 page_three ∷ past))
    × (same_deps t.effect_filters t.filters ≡ true)
    × (mores t.requests ≡ one_if t.loading)
table_after-ShowsOnly_example = table_after-ShowsOnly to_iso dead past (replied 0 page_three)

-- A poll that is answered while the third page is under way takes the second page away for good.
page_two_lost :
    (table_after to_iso dead (replied 0 page_three ∷ replied 0 page_one ∷ polled ∷ past)).rows
    ≡ 9 ∷ 8 ∷ 5 ∷ []
unfolding table_after same_deps
page_two_lost = refl

-- A page of the former filters is appended to the rows of the new ones.
filters_mixed :
    (table_after to_iso dead
      (replied 0 page_three ∷ replied 0 page_one ∷ rendered empty_filters ∷ past)).rows
    ≡ 9 ∷ 8 ∷ 5 ∷ []
unfolding table_after same_deps
filters_mixed = refl

retry_row_of-post_retry_example :
    let (answer, after) = retry_row_of defaults 8 new_view (smooth inputs) reader in
    (answer ≡ ok (view_after 8 (some dlq) new_view))
    × IsRetried defaults inputs 8 new_view (some dlq) reader after
unfolding find_delivery
retry_row_of-post_retry_example = retry_row_of-post_retry defaults inputs 8 new_view reader refl
