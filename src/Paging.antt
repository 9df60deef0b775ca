-- ===== src/Paging.antt =====
-- The part that the two lists of db/deliveries.repo.ts share: a page of the rows below a cursor, the
-- newest first. A row's key is its `updated_at` and its id; a timestamp as an ISO text stands as its
-- time.
pub mod Order
pub mod Walk
use mathlib.Core.Option
use webhook_delivery_engine.Prelude.{
  ℕ, zero, suc, ◌+◌, Bool, true, ◌==◌, ◌&&◌, ◌||◌, ltb, if◌then◌else◌, Option, none, some, List, [],
  ◌∷◌, ◌++◌, length, take, where_rows,
}

pub record Cursor : Type 0 where
  pub updated_at : ℕ
  pub id : ℕ

-- `(t, i) < (u, j)` of a row comparison
abbrev pub key_lt : ℕ → ℕ → ℕ → ℕ → Bool
key_lt t i u j = ltb t u || (t == u && ltb i j)

pub record Page {ℓ} (A : Type ℓ) : Type ℓ where
  pub rows : List A
  pub has_more : Bool

-- The element after which a client goes on.
abbrev pub last_row {ℓ} : {A : Type ℓ} → List A → Option A
last_row [] = none
last_row (x ∷ []) = some x
last_row (x ∷ y ∷ ys) = last_row (y ∷ ys)

module _ {ℓ} {A : Type ℓ} (updated_at id : A → ℕ) where
  -- ORDER BY updated_at DESC, id DESC
  unfoldable pub insert_row : A → List A → List A
  insert_row x [] = x ∷ []
  insert_row x (y ∷ ys) =
      let rest = insert_row x ys in
      if key_lt (updated_at x) (id x) (updated_at y) (id y) then y ∷ rest else x ∷ y ∷ ys

  unfoldable pub order_rows : List A → List A
  unfolding insert_row
  order_rows [] = []
  order_rows (x ∷ xs) = insert_row x (order_rows xs)

  -- `$1 IS NULL OR (updated_at, id) < ($1, $2)`
  abbrev pub below : Option Cursor → A → Bool
  below none x = true
  below (some c) x = key_lt (updated_at x) (id x) c.updated_at c.id

  -- WHERE, ORDER BY and LIMIT $n of `limit + 1`, and what becomes of the rows that they give.
  unfoldable pub page_where : (A → Bool) → ℕ → List A → Page A
  unfolding order_rows
  page_where p limit xs =
      let found = take (limit + 1) (order_rows (where_rows p xs)) in
      record { rows = take limit found; has_more = ltb limit (length found) }

  abbrev pub page_of : Option Cursor → ℕ → List A → Page A
  page_of cursor = page_where (below cursor)

  -- What the routes give as `next_cursor`; `to_date` is how the driver reads a timestamp as a Date.
  unfoldable pub cursor_after : (ℕ → ℕ) → Page A → Option Cursor
  cursor_after to_date p =
      if p.has_more
      then Option.map (λ x. record { updated_at = to_date (updated_at x); id = id x })
          (last_row p.rows)
      else none

  abbrev pub go_on : Option Cursor → (Cursor → List A) → List A
  go_on none rest = []
  go_on (some c) rest = rest c

  -- A client that goes from a cursor to the end, with fuel for the pages.
  unfoldable pub walk : ℕ → (ℕ → ℕ) → ℕ → Option Cursor → List A → List A
  walk zero to_date limit cursor xs = []
  walk (suc n) to_date limit cursor xs =
      let p = page_of cursor limit xs in
      p.rows ++ go_on (cursor_after to_date p) λ c. walk n to_date limit (some c) xs
