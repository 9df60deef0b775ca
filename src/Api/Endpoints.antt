-- ===== src/Api/Endpoints.antt =====
-- api/routes/endpoints.ts. The answers of the schemas are part of the request, and so is the secret that
-- `randomBytes` would give.
pub mod Rows
use text.Mathlib.Text.{starts_with}
use webhook_delivery_engine.Prelude.{
  [], none, ◌==◌, str_eq, where_rows, ◌&&◌, some, is_some, ◌∷◌, if◌then◌else◌, List, or_else, true,
  not, String, Bool, Option, ℕ,
}
use webhook_delivery_engine.Db.{find_endpoint, Endpoint, Db}
use webhook_delivery_engine.Redis.{Redis}
use webhook_delivery_engine.Exec.{
  asks, pure, invalid_url, with_tx, endpoint_not_found, ◌>>=◌, validation_error, violation, thrown,
  app_error, err, query, throw, ok, M, Thrown, Result,
}
use webhook_delivery_engine.Queue.{Bull}
use webhook_delivery_engine.Paging.{order_rows}

pub record CreateBody : Type 0 where
  pub client_id : String
  pub url : String
  pub signing_secret : Option String

pub record PatchBody : Type 0 where
  pub is_active : Option Bool
  pub url : Option String

abbrev pub is_https : String → Bool
is_https url = starts_with url "https://"

abbrev pub new_endpoint : CreateBody → String → ℕ → ℕ → Endpoint
new_endpoint body secret id now = record {
  id = id;
  client_id = body.client_id;
  url = body.url;
  signing_secret = or_else body.signing_secret secret;
  is_active = true;
  created_at = now;
}

-- INSERT INTO endpoints ... RETURNING
unfoldable pub insert_endpoint : Endpoint → Db → Result (Endpoint × Db)
insert_endpoint e db =
    if is_some (find_endpoint e.id db.endpoints)
    then err violation
    else ok (e, record db { endpoints = e ∷ db.endpoints })

-- The SET list: the columns that the body gives.
abbrev pub patched : PatchBody → Endpoint → Endpoint
patched body e = record e {
  is_active = or_else body.is_active e.is_active;
  url = or_else body.url e.url;
}

unfoldable pub update_endpoint : ℕ → (Endpoint → Endpoint) → List Endpoint → List Endpoint
update_endpoint id f [] = []
update_endpoint id f (e ∷ es) =
    let rest = update_endpoint id f es in if e.id == id then f e ∷ rest else e ∷ rest

-- UPDATE endpoints SET ... WHERE id = $i RETURNING *
unfoldable pub patch_tx : ℕ → PatchBody → ℕ → Db → Result (Option Endpoint × Db)
unfolding update_endpoint
patch_tx id body now db =
    let endpoints = update_endpoint id (patched body) db.endpoints in
    ok (find_endpoint id endpoints, record db { endpoints = endpoints })

-- `WHERE client_id = $1`, where the query has a client id that is not empty.
abbrev pub of_client : Option String → Endpoint → Bool
of_client none e = true
of_client (some client_id) e = if str_eq client_id "" then true else str_eq e.client_id client_id

unfoldable pub select_endpoints : Option String → Db → List Endpoint
select_endpoints client_id db =
    order_rows (λ e. e.created_at) (λ e. 0) (where_rows (of_client client_id) db.endpoints)

abbrev pub gives_nothing : PatchBody → Bool
gives_nothing body = not (is_some body.is_active) && not (is_some body.url)

module _ {r : Redis} {b : Bull} where
  unfoldable pub post_endpoints : Bool → String → Option CreateBody → M r b Endpoint
  unfolding insert_endpoint
  post_endpoints production secret none = throw (app_error 400 validation_error)
  post_endpoints production secret (some body) =
      if production && not (is_https body.url) then throw (app_error 400 invalid_url) else do
        id ← asks (λ e step. e.endpoint_uuid step)
        with_tx λ now db. insert_endpoint (new_endpoint body secret id now) db

  unfoldable pub get_endpoints : Option String → M r b (List Endpoint)
  unfolding select_endpoints
  get_endpoints client_id = query (select_endpoints client_id)

  abbrev pub or_no_endpoint : Option Endpoint → M r b Endpoint
  or_no_endpoint none = throw (app_error 404 endpoint_not_found)
  or_no_endpoint (some e) = pure e

  abbrev pub patch_row : Thrown → Option ℕ → PatchBody → M r b Endpoint
  patch_row cast_error none body = throw (thrown cast_error)
  patch_row cast_error (some id) body = do found ← with_tx (patch_tx id body); or_no_endpoint found

  -- The id is `none` where the text is no uuid, which only the database finds out.
  unfoldable pub patch_endpoint : Thrown → Option ℕ → Option PatchBody → M r b Endpoint
  unfolding patch_tx
  patch_endpoint cast_error id none = throw (app_error 400 validation_error)
  patch_endpoint cast_error id (some body) =
      if gives_nothing body
      then throw (app_error 400 validation_error)
      else patch_row cast_error id body
