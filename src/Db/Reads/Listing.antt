-- ===== src/Db/Reads/Listing.antt =====
-- What the two lists give.
use mathlib.Core.Option
use webhook_delivery_engine.Db.Reads.{
  list_row, add_listed, date, ok, DeliveryListRow, TextCursor, select_list, listed_rows, Casts,
}
use webhook_delivery_engine.Db.{find_event, Delivery, Event, Db}
use webhook_delivery_engine.Paging.{walk, order_rows, page_of, below, page_where, Cursor}
use webhook_delivery_engine.Prelude.{
  suc, false, ◌==◌, Bool-cases, All, none, inr, ap, inl, [], ◌≤◌, ltb, arith, length, ◌∷◌, refl,
  ◌&&◌, some, where_rows, List, ◌≡◌, Bool, Option, ℕ,
}
use webhook_delivery_engine.Paging.Order.{IsUnique}
use webhook_delivery_engine.Paging.Walk.{CutsAlike, walk-order_rows}

-- What Postgres and JavaScript document of the texts: a text that one of them wrote is read back, and
-- uuids are compared as texts as they are compared as uuids. The times are those of Dates.
pub record IsCasts (k : Casts) : Type 0 where
  pub timestamptz-to_iso_string : (t : ℕ) → k.timestamptz (k.to_iso_string t) ≡ some t
  pub new_date-to_iso_string : (t : ℕ) → k.new_date (k.to_iso_string t) ≡ date t
  pub uuid-uuid_text : (i : ℕ) → k.uuid (k.uuid_text i) ≡ some i
  pub text_lt-uuid_text : (i j : ℕ) → k.text_lt (k.uuid_text i) (k.uuid_text j) ≡ ltb i j

-- The texts of a cursor that a route has issued.
abbrev pub issued : Casts → Cursor → TextCursor
issued k c = record { updated_at = k.to_iso_string c.updated_at; id = k.uuid_text c.id }

abbrev pub rows_of : Db → List DeliveryListRow
rows_of db = listed_rows db.events db.deliveries

abbrev pub is_below : Option Cursor → DeliveryListRow → Bool
is_below = below (λ x. x.updated_at) (λ x. x.id)

where_rows-and {ℓ} :
    {A : Type ℓ} (p q : A → Bool) (xs : List A)
    → where_rows (λ x. p x && q x) xs ≡ where_rows q (where_rows p xs)
where_rows-and p q [] = refl
where_rows-and p q (x ∷ xs) = ground (arith, where_rows-and p q xs)

All-where_rows {ℓ} :
    {A : Type ℓ} (p : A → Bool) (P : A → Type 0) (xs : List A) → All P xs → All P (where_rows p xs)
All-where_rows p P [] h = tt
All-where_rows p P (x ∷ xs) h = elim (Bool-cases (p x)) [
  | inl e ↦ rw e (h.0, All-where_rows p P xs h.1)
  | inr e ↦ rw e (All-where_rows p P xs h.1)
]

where_rows-cong {ℓ} :
    {A : Type ℓ} (p q : A → Bool) (xs : List A)
    → ((x : A) → p x ≡ q x)
    → where_rows p xs ≡ where_rows q xs
where_rows-cong p q [] e = refl
where_rows-cong p q (x ∷ xs) e = ground (arith, e x, where_rows-cong p q xs e)

module _ {ℓ} {A : Type ℓ} (updated_at id : A → ℕ) where
  -- What the filters leave is paged like a table of its own.
  pub page_where-and :
      (p q r : A → Bool) (limit : ℕ) (xs : List A)
      → ((x : A) → r x ≡ (p x && q x))
      → page_where updated_at id r limit xs ≡ page_where updated_at id q limit (where_rows p xs)
  unfolding page_where
  page_where-and p q r limit xs e =
      rw (where_rows-cong r (λ x. p x && q x) xs e, where_rows-and p q xs) refl

-- A page of `list`, for no cursor or one that was issued, is a page of the rows that the filters leave.
pub select_list-page_of :
    (k : Casts) (laws : IsCasts k) (p : DeliveryListRow → Bool) (cursor : Option Cursor) (limit : ℕ)
    (db : Db)
    → select_list k p (Option.map (issued k) cursor) limit db
      ≡ ok (page_of (λ x. x.updated_at) (λ x. x.id) cursor limit (where_rows p (rows_of db)))
unfolding select_list
select_list-page_of k laws p none limit db =
    ap ok (page_where-and _ _ p (is_below none) p limit (rows_of db) λ x. ground arith)
select_list-page_of k laws p (some c) limit db = rw (laws.timestamptz-to_iso_string c.updated_at) (
    ap ok (
      page_where-and _ _ p (is_below (some c)) _ limit (rows_of db)
        λ x. rw (laws.text_lt-uuid_text x.id c.id) refl))

add_listed-All :
    (Q : DeliveryListRow → Type 0) (d : Delivery) (found : Option Event)
    (rows : List DeliveryListRow)
    → ((ev : Event) → Q (list_row d ev))
    → All Q rows
    → All Q (add_listed d found rows)
add_listed-All Q d none rows q h = h
add_listed-All Q d (some ev) rows q h = (q ev, h)

-- What holds of a table, row by row, holds of its join with the events.
pub listed_rows-All :
    (P : Delivery → Type 0) (Q : DeliveryListRow → Type 0) (events : List Event)
    (ds : List Delivery)
    → ((d : Delivery) (ev : Event) → P d → Q (list_row d ev))
    → All P ds
    → All Q (listed_rows events ds)
unfolding listed_rows
listed_rows-All P Q events [] step h = tt
listed_rows-All P Q events (d ∷ ds) step h =
    add_listed-All Q d (find_event d.event_id events) _ (λ ev. step d ev h.0)
      (listed_rows-All P Q events ds step h.1)

length-listed_rows :
    (events : List Event) (ds : List Delivery) → length (listed_rows events ds) ≤ length ds
unfolding listed_rows
length-listed_rows events [] = omega arith
length-listed_rows events (d ∷ ds) = ground (arith, length-listed_rows events ds)

add_listed-IsUnique :
    (d : Delivery) (found : Option Event) (rows : List DeliveryListRow)
    → All (λ y. (y.id == d.id) ≡ false) rows
    → IsUnique (λ x. x.updated_at) (λ x. x.id) rows
    → IsUnique (λ x. x.updated_at) (λ x. x.id) (add_listed d found rows)
add_listed-IsUnique d none rows apart h = h
add_listed-IsUnique d (some ev) rows apart h = (apart, h)

listed_rows-IsUnique :
    (events : List Event) (ds : List Delivery)
    → IsUnique (λ d. d.updated_at) (λ d. d.id) ds
    → IsUnique (λ x. x.updated_at) (λ x. x.id) (listed_rows events ds)
unfolding listed_rows
listed_rows-IsUnique events [] h = tt
listed_rows-IsUnique events (d ∷ ds) h =
    add_listed-IsUnique d (find_event d.event_id events) _
      (listed_rows-All _ _ events ds (λ y ev apart. apart) h.0) (listed_rows-IsUnique events ds h.1)

length-where_rows {ℓ} :
    {A : Type ℓ} (p : A → Bool) (xs : List A) → length (where_rows p xs) ≤ length xs
length-where_rows p [] = omega arith
length-where_rows p (x ∷ xs) = ground (arith, length-where_rows p xs)

IsUnique-where_rows :
    (p : DeliveryListRow → Bool) (xs : List DeliveryListRow)
    → IsUnique (λ x. x.updated_at) (λ x. x.id) xs
    → IsUnique (λ x. x.updated_at) (λ x. x.id) (where_rows p xs)
IsUnique-where_rows p [] h = tt
IsUnique-where_rows p (x ∷ xs) h = elim (Bool-cases (p x)) [
  | inl e ↦ rw e (All-where_rows p _ xs h.0, IsUnique-where_rows p xs h.1)
  | inr e ↦ rw e (IsUnique-where_rows p xs h.1)
]

-- The rows that the filters leave, with the newest first.
abbrev pub selected : (DeliveryListRow → Bool) → Db → List DeliveryListRow
selected p db = where_rows p (rows_of db)

abbrev pub ordered : (DeliveryListRow → Bool) → Db → List DeliveryListRow
ordered p db = order_rows (λ x. x.updated_at) (λ x. x.id) (selected p db)

-- The ids of the deliveries are a primary key.
abbrev pub IsKeyed : Db → Type 0
IsKeyed db = IsUnique (λ d. d.updated_at) (λ d. d.id) db.deliveries

-- Reading the time of a delivery as the driver does, in milliseconds, changes nothing about which
-- deliveries come after it. So it is where no two deliveries were updated in the same millisecond.
abbrev pub IsApart : Casts → Db → Type 0
IsApart k db =
    All (λ d. All (CutsAlike (λ x. x.updated_at) (λ x. x.id) k.to_date d) db.deliveries)
      db.deliveries

pub walk-ordered :
    (k : Casts) (p : DeliveryListRow → Bool) (limit n : ℕ) (db : Db)
    → 1 ≤ limit
    → IsApart k db
    → IsKeyed db
    → length db.deliveries ≤ n
    → walk (λ x. x.updated_at) (λ x. x.id) (suc n) k.to_date limit none (selected p db)
      ≡ ordered p db
walk-ordered k p limit n db at_least apart keyed le =
    walk-order_rows _ _ k.to_date limit n (selected p db) at_least
      (All-where_rows p _ _ (
        listed_rows-All _ _ db.events db.deliveries
          (λ d ev h.
            All-where_rows p _ _ (listed_rows-All _ _ db.events db.deliveries (λ d' ev' h'. h') h))
          apart))
      (IsUnique-where_rows p _ (listed_rows-IsUnique db.events db.deliveries keyed))
      (omega
        (arith, length-where_rows p (rows_of db), length-listed_rows db.events db.deliveries, le))
