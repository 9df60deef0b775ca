-- ===== src/Dashboard/Filters/Asked.antt =====
-- What the API reads of the parameters that the dashboard sends.
use Prim.Native.String as S
use Prim.Native.Char.{code}
use text.Mathlib.TextLemmas as Text
use webhook_delivery_engine.Prelude.{
  some, none, map, Option, ap, ◌∙◌, All, str_eq_iff, List, Bool-cases, if◌then◌else◌, str_eq, true,
  Bool, inr, refl, [], sym, false, subst, ◌∷◌, ◌⊎◌, inl, ◌≡◌, arith, ◌==◌, String,
}
use webhook_delivery_engine.Api.Query.{
  list_query, uuid_or_other, status_texts, truthy, param, Params, uuid_param, QueryReader,
  split_commas,
}
use webhook_delivery_engine.Dashboard.Filters.{build_params, status_param, Filters, join_commas}
use webhook_delivery_engine.Api.Deliveries.{missing_uuid, ListQuery, number_limit, UuidParam}

abbrev pub IsStatus : String → Type 0
IsStatus s =
    (s ≡ "PENDING") ⊎ ((s ≡ "DELIVERING") ⊎ ((s ≡ "DELIVERED") ⊎ ((s ≡ "FAILED") ⊎ (s ≡ "DLQ"))))

abbrev no_comma : String → Bool
no_comma S.[] = true
no_comma (S.◌∷◌ c s) = let rest = no_comma s in if code c == 44 then false else rest

-- A property of texts that the five statuses have.
by_status :
    (P : String → Type 0)
    → P "PENDING"
    → P "DELIVERING"
    → P "DELIVERED"
    → P "FAILED"
    → P "DLQ"
    → (s : String) → IsStatus s
    → P s
by_status P a b c d e s (inl h) = subst P (sym h) a
by_status P a b c d e s (inr (inl h)) = subst P (sym h) b
by_status P a b c d e s (inr (inr (inl h))) = subst P (sym h) c
by_status P a b c d e s (inr (inr (inr (inl h)))) = subst P (sym h) d
by_status P a b c d e s (inr (inr (inr (inr h)))) = subst P (sym h) e

status-no_comma : (s : String) → IsStatus s → no_comma s ≡ true
status-no_comma = by_status (λ s. no_comma s ≡ true) refl refl refl refl refl

status-filled : (s t : String) → IsStatus s → str_eq (S.◌++◌ s t) "" ≡ false
status-filled s t h = elim (Bool-cases (str_eq (S.◌++◌ s t) "")) [
  | inl e ↦
      let empty = (Text.append-eq-nil_iff.0 ((str_eq_iff (S.◌++◌ s t) "").0 e)).0 in
      absurd
        (by_status (λ s. s ≡ "" → ⊥) (λ e. cc) (λ e. cc) (λ e. cc) (λ e. cc) (λ e. cc) s h empty)
  | inr e ↦ e
]

join_commas-filled :
    (s : String) (ss : List String)
    → All IsStatus (s ∷ ss)
    → str_eq (join_commas (s ∷ ss)) "" ≡ false
unfolding join_commas
join_commas-filled s [] (h, _) = by_status (λ s. str_eq s "" ≡ false) refl refl refl refl refl s h
join_commas-filled s (t ∷ ts) (h, _) = status-filled s _ h

split_commas-no_comma : (s : String) → no_comma s ≡ true → split_commas s ≡ s ∷ []
unfolding split_commas
split_commas-no_comma S.[] h = refl
split_commas-no_comma (S.◌∷◌ c s) h = elim (Bool-cases (code c == 44)) [
  | inl e ↦ cc (rw e at h)
  | inr e ↦ rw (split_commas-no_comma s (rw e at h), e) refl
]

comma-append : (t : String) → S.◌++◌ "," t ≡ S.◌∷◌ "," t
comma-append t = Text.cons-append "," "" t ∙ ap (S.◌∷◌ ",") (Text.nil-append t)

split_commas-append :
    (s t : String) → no_comma s ≡ true → split_commas (S.◌++◌ s (S.◌++◌ "," t)) ≡ s ∷ split_commas t
unfolding split_commas
split_commas-append S.[] t h = rw (Text.nil-append, comma-append) refl
split_commas-append (S.◌∷◌ c s) t h = elim (Bool-cases (code c == 44)) [
  | inl e ↦ cc (rw e at h)
  | inr e ↦ rw Text.cons-append (rw (split_commas-append s t (rw e at h), e) refl)
]

-- The texts that the schema makes of the joined statuses are the statuses.
split_commas-join_commas :
    (s : String) (ss : List String)
    → All IsStatus (s ∷ ss)
    → split_commas (join_commas (s ∷ ss)) ≡ s ∷ ss
unfolding join_commas
split_commas-join_commas s [] (h, _) = split_commas-no_comma s (status-no_comma s h)
split_commas-join_commas s (t ∷ ts) (h, hs) =
    split_commas-append s (join_commas (t ∷ ts)) (status-no_comma s h)
    ∙ ap (s ∷◌) (split_commas-join_commas t ts hs)

map-id_of_All : (f : String → String) (ss : List String) → All (λ s. f s ≡ s) ss → map f ss ≡ ss
map-id_of_All f [] h = refl
map-id_of_All f (s ∷ ss) (h, hs) = rw (h, map-id_of_All f ss hs) refl

-- What the texts of the filters stand for, once the schema has read them.
abbrev pub endpoint_of : QueryReader → String → UuidParam
endpoint_of z s = if str_eq s "" then missing_uuid else uuid_or_other z (z.uuid s)

abbrev pub bound_text : (String → String) → String → Option String
bound_text to_iso s = if str_eq s "" then none else some (to_iso s)

abbrev pub query_of : QueryReader → (String → String) → Filters → Option String → ListQuery
query_of z to_iso f cursor = record {
  status = f.statuses;
  endpoint_id = endpoint_of z f.endpoint_id;
  from = bound_text to_iso f.from;
  to = bound_text to_iso f.to;
  limit = number_limit 50;
  cursor = truthy cursor;
}

-- `Number('50')` is 50, the statuses are in upper case with no blanks, and `toISOString` never gives an
-- empty text.
pub record IsReader (z : QueryReader) (to_iso : String → String) : Type 0 where
  pub coerce_number_lem : z.coerce_number "50" ≡ number_limit 50
  pub trim_upper_lem : (s : String) → IsStatus s → z.trim_upper s ≡ s
  pub to_iso_filled : (s : String) → str_eq (to_iso s) "" ≡ false

module _ (z : QueryReader) (to_iso : String → String) (laws : IsReader z to_iso) where
  status_texts-join_commas :
      (ss : List String) (p : Params)
      → param "status" p ≡ none
      → All IsStatus ss
      → status_texts z (truthy (param "status" (status_param ss p))) ≡ ss
  unfolding join_commas
  status_texts-join_commas [] p h known = rw h refl
  status_texts-join_commas (s ∷ ss) p h known = rw (join_commas-filled s ss known) (
      rw (split_commas-join_commas s ss known)
        (map-id_of_All z.trim_upper (s ∷ ss) (trimmed (s ∷ ss) known)))
    where
      trimmed : (ss : List String) → All IsStatus ss → All (λ s. z.trim_upper s ≡ s) ss
      trimmed [] h = tt
      trimmed (s ∷ ss) (h, hs) = (laws.trim_upper_lem s h, trimmed ss hs)

  abbrev sent : Filters → Option String → Params
  sent f cursor = build_params to_iso f cursor

  -- Each parameter is read from among the others.
  param-status :
      (f : Filters) (cursor : Option String)
      → param "status" (sent f cursor) ≡ param "status" (status_param f.statuses [])
  unfolding build_params
  param-status f cursor = ground (arith)

  param-endpoint_id :
      (f : Filters) (cursor : Option String)
      → param "endpoint_id" (sent f cursor)
        ≡ (if str_eq f.endpoint_id "" then none else some f.endpoint_id)
  unfolding build_params
  param-endpoint_id f cursor = ground (arith)

  param-from :
      (f : Filters) (cursor : Option String)
      → param "from" (sent f cursor) ≡ bound_text to_iso f.from
  unfolding build_params
  param-from f cursor = ground (arith)

  param-to :
      (f : Filters) (cursor : Option String) → param "to" (sent f cursor) ≡ bound_text to_iso f.to
  unfolding build_params
  param-to f cursor = ground (arith)

  param-limit : (f : Filters) (cursor : Option String) → param "limit" (sent f cursor) ≡ some "50"
  unfolding build_params
  param-limit f cursor = ground (arith)

  param-cursor :
      (f : Filters) (cursor : Option String) → param "cursor" (sent f cursor) ≡ truthy cursor
  unfolding build_params
  param-cursor f cursor = ground (arith)

  truthy-bound_text : (s : String) → truthy (bound_text to_iso s) ≡ bound_text to_iso s
  truthy-bound_text s = ground (arith, laws.to_iso_filled s)

  status_texts-sent :
      (f : Filters) (cursor : Option String)
      → All IsStatus f.statuses
      → status_texts z (truthy (param "status" (sent f cursor))) ≡ f.statuses
  status_texts-sent f cursor known =
      rw (param-status f cursor) (status_texts-join_commas f.statuses [] refl known)

  uuid_param-sent :
      (f : Filters) (cursor : Option String)
      → uuid_param z (param "endpoint_id" (sent f cursor)) ≡ endpoint_of z f.endpoint_id
  uuid_param-sent f cursor = rw (param-endpoint_id f cursor) (ground arith)

  -- The API reads the parameters that the table sends as it means them: the chosen statuses, the
  -- endpoint, the bounds, a limit of 50 and the cursor, for statuses that the filter bar offers.
  pub list_query-build_params :
      (f : Filters) (cursor : Option String)
      → All IsStatus f.statuses
      → list_query z (build_params to_iso f cursor) ≡ query_of z to_iso f cursor
  unfolding list_query
  list_query-build_params f cursor known =
      rw
        (
          status_texts-sent f cursor known,
          uuid_param-sent f cursor,
          param-from f cursor,
          param-to f cursor,
          param-limit f cursor,
          param-cursor f cursor,
          truthy-bound_text f.from,
          truthy-bound_text f.to,
          laws.coerce_number_lem,
        )
        refl
