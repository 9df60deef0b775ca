-- ===== src/Dashboard/Table.antt =====
-- dashboard/src/components/DeliveryTable.tsx: its state, with the requests under way. An effect is
-- cancelled where a later one has begun. Rows are of any type; a failure stands for its message.
pub mod Coherent
use webhook_delivery_engine.Prelude.{
  zero, ◌++◌, suc, false, Bool, none, true, ◌∷◌, ◌==◌, some, [], ◌+◌, if◌then◌else◌, List, String,
  ℕ, Option,
}
use webhook_delivery_engine.Dashboard.Filters.{same_deps, build_params, Filters}
use webhook_delivery_engine.Api.Query.{truthy, Params}
use webhook_delivery_engine.Exec.{err, Failure, ok, Result}
use webhook_delivery_engine.Api.Deliveries.{ListReply}

-- A request of `fetch1` in the effect of that number, or of `loadMore`.
pub data RequestKind : Type 0 where
  first_page : ℕ → RequestKind
  more : RequestKind

pub record Request : Type 0 where
  pub kind : RequestKind
  pub params : Params

pub record Table (A : Type 0) : Type 0 where
  -- The props, and what the closure of the current effect has of them.
  pub filters : Filters
  pub effect_filters : Filters
  pub effect : ℕ
  pub rows : List A
  pub next_cursor : Option String
  pub loading : Bool
  pub error : Option Failure
  pub requests : List Request

abbrev pub Answer : Type 0 → Type 0
Answer A = Result (ListReply A)

-- The parent renders, the interval or the tab calls `fetch1`, the button is clicked, or the answer to
-- a request arrives.
pub data TableEvent (A : Type 0) : Type 0 where
  rendered : Filters → TableEvent A
  polled load_clicked : TableEvent A
  replied : ℕ → Answer A → TableEvent A

abbrev pub keep_request :
    Request → Option (Request × List Request) → Option (Request × List Request)
keep_request q none = none
keep_request q (some (p, rest)) = some (p, q ∷ rest)

-- The request at a place of the list, and the others.
abbrev pub take_request : ℕ → List Request → Option (Request × List Request)
take_request n [] = none
take_request zero (q ∷ qs) = some (q, qs)
take_request (suc n) (q ∷ qs) = keep_request q (take_request n qs)

module _ {A : Type 0} where
  -- What the promise of a request does with its answer.
  unfoldable pub arrive : RequestKind → Answer A → Table A → Table A
  arrive (first_page e) (ok page) t =
      if e == t.effect
      then record t { rows = page.data_rows; next_cursor = page.next_cursor; error = none }
      else t
  arrive (first_page e) (err f) t = if e == t.effect then record t { error = some f } else t
  arrive more (ok page) t = record t {
    rows = t.rows ++ page.data_rows;
    next_cursor = page.next_cursor;
    loading = false;
  }
  arrive more (err f) t = record t { error = some f; loading = false }

  abbrev pub settle_request : Answer A → Option (Request × List Request) → Table A → Table A
  settle_request a none t = t
  settle_request a (some (q, rest)) t = arrive q.kind a (record t { requests = rest })

module _ {A : Type 0} (to_iso : String → String) where
  unfoldable pub fetch1 : Table A → Table A
  fetch1 t = record t {
    requests =
        record { kind = first_page t.effect; params = build_params to_iso t.effect_filters none }
        ∷ t.requests;
  }

  -- The clean-up of the effect, and the effect with the new filters.
  unfoldable pub run_effect : Filters → Table A → Table A
  unfolding fetch1
  run_effect f t = fetch1 (record t { filters = f; effect_filters = f; effect = t.effect + 1 })

  abbrev pub more_after : Option String → Table A → Table A
  more_after none t = t
  more_after (some c) t = if t.loading then t else record t {
    loading = true;
    requests = record { kind = more; params = build_params to_iso t.filters (some c) } ∷ t.requests;
  }

  unfoldable pub load_more : Table A → Table A
  load_more t = more_after (truthy t.next_cursor) t

  -- The table at its first render, its effect under way.
  unfoldable pub mount : Filters → Table A
  unfolding fetch1
  mount f = fetch1 (record {
    filters = f;
    effect_filters = f;
    effect = 0;
    rows = [];
    next_cursor = none;
    loading = false;
    error = none;
    requests = [];
  })

  unfoldable pub table_step : TableEvent A → Table A → Table A
  unfolding run_effect fetch1 load_more arrive
  table_step (rendered f) t =
      if same_deps t.effect_filters f then record t { filters = f } else run_effect f t
  table_step polled t = fetch1 t
  table_step load_clicked t = load_more t
  table_step (replied n a) t = settle_request a (take_request n t.requests) t

  -- After the events of a history, the newest first.
  unfoldable pub table_after : Filters → List (TableEvent A) → Table A
  unfolding table_step mount
  table_after f [] = mount f
  table_after f (e ∷ past) = table_step e (table_after f past)
