-- ===== src/Api/Query.antt =====
-- The query schema of api/routes/deliveries.ts, over the parameters of the query string as they were
-- sent. What zod and JavaScript make of a uuid, of a number and of letters are parameters.
use Prim.Native.String as S
use Prim.Native.Char.{Char, code}
use webhook_delivery_engine.Prelude.{
  str_eq, ◌==◌, map, if◌then◌else◌, [], ◌∷◌, ℕ, some, none, Option, List, String,
}
use webhook_delivery_engine.Api.Deliveries.{
  valid_uuid, other_uuid, missing_uuid, missing_limit, LimitParam, UuidParam, ListQuery,
}

-- The parameters of a query string, by name.
abbrev pub Params : Type 0
Params = List (String × String)

abbrev pub param : String → Params → Option String
param name [] = none
param name ((key, value) ∷ rest) = if str_eq key name then some value else param name rest

abbrev pub add_to_head : Char → List String → List String
add_to_head c [] = (S.◌∷◌ c S.[]) ∷ []
add_to_head c (part ∷ parts) = S.◌∷◌ c part ∷ parts

-- v.split(',')
unfoldable pub split_commas : String → List String
split_commas S.[] = S.[] ∷ []
split_commas (S.◌∷◌ c s) =
    let parts = split_commas s in if code c == 44 then S.[] ∷ parts else add_to_head c parts

-- z.string().uuid(), z.coerce.number() and s.trim().toUpperCase()
pub record QueryReader : Type 0 where
  pub uuid : String → Option ℕ
  pub coerce_number : String → LimitParam
  pub trim_upper : String → String

-- `v ? ... : undefined`
abbrev pub truthy : Option String → Option String
truthy none = none
truthy (some s) = if str_eq s "" then none else some s

module _ (z : QueryReader) where
  abbrev pub status_texts : Option String → List String
  status_texts none = []
  status_texts (some s) = map z.trim_upper (split_commas s)

  abbrev pub uuid_or_other : Option ℕ → UuidParam
  uuid_or_other none = other_uuid
  uuid_or_other (some id) = valid_uuid id

  abbrev pub uuid_param : Option String → UuidParam
  uuid_param none = missing_uuid
  uuid_param (some s) = uuid_or_other (z.uuid s)

  abbrev pub limit_param : Option String → LimitParam
  limit_param none = missing_limit
  limit_param (some s) = z.coerce_number s

  -- listQuerySchema, but for the filter of the statuses and the range of the limit.
  unfoldable pub list_query : Params → ListQuery
  unfolding split_commas
  list_query p = record {
    status = status_texts (truthy (param "status" p));
    endpoint_id = uuid_param (param "endpoint_id" p);
    from = truthy (param "from" p);
    to = truthy (param "to" p);
    limit = limit_param (param "limit" p);
    cursor = param "cursor" p;
  }
