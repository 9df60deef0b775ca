-- ===== src/Api/Endpoints/Rows.antt =====
-- What the routes do to the table of endpoints.
use mathlib.Core.Option
use webhook_delivery_engine.Prelude.{
  or_else, inr, inl, Bool-cases, ◌+◌, ==_refl, false, refl, none, [], ◌∷◌, some, arith, ◌==◌,
  String, true, if◌then◌else◌, ◌≡◌, List, All, Option, ℕ,
}
use webhook_delivery_engine.Redis.{Redis}
use webhook_delivery_engine.Db.{Endpoint, find_endpoint, Db}
use webhook_delivery_engine.Api.Endpoints.{
  new_endpoint, patched, gives_nothing, PatchBody, or_no_endpoint, ok, CreateBody, patch_tx,
  endpoint_not_found, post_endpoints, app_error, patch_endpoint, insert_endpoint, err, is_https,
  update_endpoint,
}
use webhook_delivery_engine.Queue.{Bull}
use webhook_delivery_engine.Exec.{
  await, smooth, with_tx, Run, ◌>>=◌, db_after, throw, pure, Thrown, Inputs, Result, Env,
}
use webhook_delivery_engine.Exec.Keeps.{
  Keeps-with_tx, Keeps-asks, Keeps-bind, Keeps-throw, Keeps, IsReliable,
}

find-update_endpoint :
    (id j : ℕ) (f : Endpoint → Endpoint) (es : List Endpoint)
    → ((e : Endpoint) → (f e).id ≡ e.id)
    → find_endpoint j (update_endpoint id f es)
      ≡ (if id == j then Option.map f (find_endpoint j es) else find_endpoint j es)
unfolding find_endpoint update_endpoint
find-update_endpoint id j f [] keep = ground arith
find-update_endpoint id j f (e ∷ es) keep =
    ground (arith, keep e, find-update_endpoint id j f es keep)

abbrev pub found_or_404 : Option Endpoint → Result Endpoint
found_or_404 none = err (app_error 404 endpoint_not_found)
found_or_404 (some e) = ok e

-- The column after a PATCH that gives it, or leaves it out.
abbrev pub IsGiven : {A : Type 0} → Option A → A → A → Type 0
IsGiven none before after = after ≡ before
IsGiven (some given) before after = after ≡ given

-- `e'` is `e` but for the columns that the body gives, which are as given.
abbrev pub IsPatch : PatchBody → Endpoint → Endpoint → Type 0
IsPatch body e e' =
    IsGiven body.is_active e.is_active e'.is_active
    × IsGiven body.url e.url e'.url
    × (e'.id ≡ e.id)
    × (e'.client_id ≡ e.client_id)
    × (e'.signing_secret ≡ e.signing_secret)
    × (e'.created_at ≡ e.created_at)

or_else-IsGiven :
    {A : Type 0} (given : Option A) (before : A) → IsGiven given before (or_else given before)
or_else-IsGiven none before = refl
or_else-IsGiven (some x) before = refl

patched-IsPatch : (body : PatchBody) (e : Endpoint) → IsPatch body e (patched body e)
patched-IsPatch body e = (
  or_else-IsGiven body.is_active e.is_active,
  or_else-IsGiven body.url e.url,
  refl,
  refl,
  refl,
  refl,
)

module _ {r : Redis} {b : Bull} (i : Inputs) (cast_error : Thrown) where
  or_no_endpoint-found_or_404 :
      (found : Option Endpoint) (run : Run r b)
      → or_no_endpoint found (smooth i) run ≡ (found_or_404 found, run)
  unfolding pure throw
  or_no_endpoint-found_or_404 none run = refl
  or_no_endpoint-found_or_404 (some e) run = refl

  abbrev after_patch : ℕ → PatchBody → Run r b → Run r b
  after_patch id body run = record run {
    step = run.step + 1;
    shared = record run.shared {
      db = record run.shared.db {
        endpoints = update_endpoint id (patched body) run.shared.db.endpoints;
      };
    };
  }

  patch_endpoint-run :
      (id : ℕ) (body : PatchBody) (run : Run r b)
      → gives_nothing body ≡ false
      → patch_endpoint cast_error (some id) (some body) (smooth i) run ≡ (
        found_or_404 (Option.map (patched body) (find_endpoint id run.shared.db.endpoints)),
        after_patch id body run,
      )
  unfolding patch_endpoint patch_tx ◌>>=◌ with_tx await
  patch_endpoint-run id body run gives =
      rw
        (
          gives,
          or_no_endpoint-found_or_404
              (find_endpoint id (update_endpoint id (patched body) run.shared.db.endpoints))
              (after_patch id body run),
          find-update_endpoint id id (patched body) run.shared.db.endpoints (λ e. refl),
          ==_refl id,
        )
        refl

  -- An undisturbed PATCH that gives a column: where the endpoint is, the answer is its row as it then is, with
  -- each given column as given and every other column as it was; where it is not, the answer is 404. The other
  -- endpoints and all other tables stay as they are.
  pub patch_endpoint-patched :
      (id : ℕ) (body : PatchBody) (run : Run r b)
      → gives_nothing body ≡ false
      → let (answer, after) = patch_endpoint cast_error (some id) (some body) (smooth i) run in
        let endpoints = run.shared.db.endpoints in
        ((e : Endpoint)
          → find_endpoint id endpoints ≡ some e
          → (e' : Endpoint) × (answer ≡ ok e')
            × (find_endpoint id after.shared.db.endpoints ≡ some e')
            × IsPatch body e e')
        × (find_endpoint id endpoints ≡ none
            → (answer ≡ err (app_error 404 endpoint_not_found))
              × (find_endpoint id after.shared.db.endpoints ≡ none))
        × ((j : ℕ)
            → (id == j) ≡ false
            → find_endpoint j after.shared.db.endpoints ≡ find_endpoint j endpoints)
        × (record after.shared.db { endpoints = endpoints } ≡ run.shared.db)
  patch_endpoint-patched id body run gives = rw (patch_endpoint-run id body run gives) (
    (λ e found. (
      patched body e,
      rw found refl,
      rw (found_after id) (rw (==_refl id, found) refl),
      patched-IsPatch body e,
    )),
    (λ missing. (rw missing refl, rw (found_after id) (rw (==_refl id, missing) refl))),
    (λ j other. rw (found_after j) (rw other refl)),
    refl,
  )
    where
      found_after :
          (j : ℕ)
          → find_endpoint j (update_endpoint id (patched body) run.shared.db.endpoints) ≡ (
              if id == j
              then Option.map (patched body) (find_endpoint j run.shared.db.endpoints)
              else find_endpoint j run.shared.db.endpoints)
      found_after j = find-update_endpoint id j (patched body) run.shared.db.endpoints (λ e. refl)

-- In production every endpoint has an https URL.
abbrev pub IsSecure : Db → Type 0
IsSecure db = All (λ e. is_https e.url ≡ true) db.endpoints

module _ {r : Redis} {b : Bull} (e : Env r b) (rely : IsReliable e IsSecure) where
  insert_endpoint-IsSecure :
      (row : Endpoint) (db : Db)
      → is_https row.url ≡ true
      → IsSecure db
      → IsSecure (db_after db (insert_endpoint row db))
  unfolding insert_endpoint
  insert_endpoint-IsSecure row db https h = ground (arith, h)

  -- Whatever commands fail or lose their reply and wherever the process dies: POST /v1/endpoints in production
  -- keeps every endpoint's URL at https, if the other processes do.
  pub post_endpoints-IsSecure :
      (secret : String) (body : Option CreateBody)
      → Keeps e IsSecure (post_endpoints true secret body)
  unfolding post_endpoints
  post_endpoints-IsSecure secret none = Keeps-throw _
  post_endpoints-IsSecure secret (some body) = elim (Bool-cases (is_https body.url)) [
    | inl https ↦ rw https (
        Keeps-bind _ _ (Keeps-asks _) λ id.
          Keeps-with_tx _ rely
            λ now db h. insert_endpoint-IsSecure (new_endpoint body secret id now) db https h)
    | inr other ↦ rw other (Keeps-throw _)
  ]
