-- ===== src/Dashboard/Filters.antt =====
-- dashboard/src/components/Filters.tsx, and the parameters that DeliveryTable.tsx makes of the filters.
-- The texts of a `datetime-local` input are empty or valid dates.
pub mod Asked
use Prim.Native.String as S
use webhook_delivery_engine.Prelude.{
  none, ◌++◌, ◌||◌, some, ◌&&◌, false, if◌then◌else◌, str_eq, ◌∷◌, Option, List, Bool, [], String,
}
use webhook_delivery_engine.Api.Query.{truthy, Params}

pub record Filters : Type 0 where
  pub statuses : List String
  pub endpoint_id : String
  pub from : String
  pub to : String

abbrev pub empty_filters : Filters
empty_filters = record { statuses = []; endpoint_id = ""; from = ""; to = "" }

abbrev pub all_statuses : List String
all_statuses = "PENDING" ∷ "DELIVERING" ∷ "DELIVERED" ∷ "FAILED" ∷ "DLQ" ∷ []

abbrev pub chosen : String → List String → Bool
chosen s [] = false
chosen s (t ∷ ts) = str_eq t s || chosen s ts

abbrev pub without_status : String → List String → List String
without_status s [] = []
without_status s (t ∷ ts) = let rest = without_status s ts in if str_eq t s then rest else t ∷ rest

-- What the checkbox of a status makes of the filters.
unfoldable pub toggle_status : String → Filters → Filters
toggle_status s f = record f {
  statuses = if chosen s f.statuses then without_status s f.statuses else f.statuses ++ s ∷ [];
}

-- statuses.join(',')
unfoldable pub join_commas : List String → String
join_commas [] = ""
join_commas (s ∷ []) = s
join_commas (s ∷ t ∷ ts) = S.◌++◌ s (S.◌++◌ "," (join_commas (t ∷ ts)))

-- The dependencies of the table's effect.
unfoldable pub same_deps : Filters → Filters → Bool
unfolding join_commas
same_deps f g =
    str_eq (join_commas f.statuses) (join_commas g.statuses)
    && str_eq f.endpoint_id g.endpoint_id
    && str_eq f.from g.from
    && str_eq f.to g.to

-- `if (text) p[name] = ...`
abbrev pub unless_empty : String → String → String → Params → Params
unless_empty name text value p = if str_eq text "" then p else (name, value) ∷ p

abbrev pub status_param : List String → Params → Params
status_param [] p = p
status_param (s ∷ ss) p = ("status", join_commas (s ∷ ss)) ∷ p

abbrev pub cursor_param : Option String → Params → Params
cursor_param none p = p
cursor_param (some c) p = ("cursor", c) ∷ p

-- `to_iso` is `new Date(text).toISOString()` in the browser's time zone. The keys are distinct, so
-- their order does not matter; the last one that is set stands first here.
unfoldable pub build_params : (String → String) → Filters → Option String → Params
unfolding join_commas
build_params to_iso f cursor = cursor_param (truthy cursor) (
    unless_empty "to" f.to (to_iso f.to) (
      unless_empty "from" f.from (to_iso f.from) (
        unless_empty "endpoint_id" f.endpoint_id f.endpoint_id
          (status_param f.statuses (("limit", "50") ∷ [])))))
