-- ===== src/Db/Reads/DlqListing.antt =====
-- `listDlq` beside `list` with the status DLQ.
use mathlib.Core.Option
use webhook_delivery_engine.Prelude.{
  sym, ltb, ◌+◌, where_rows, ◌∙◌, ◌&&◌, false, none, true, zero, is_some, refl, ap, arith, suc, [],
  ◌==◌, some, length, All, take, ◌≡◌, ◌∷◌, Bool, Option, List, ℕ,
}
use webhook_delivery_engine.Paging.{
  page_of, page_where, below, Cursor, order_rows, Page, insert_row,
}
use webhook_delivery_engine.Db.{Status, dlq, status_eq, Delivery, Transition, find_delivery, Db}
use webhook_delivery_engine.Db.Reads.{
  is_dlq, dlq_page, add_dlq, is_listed, dlq_entry, DlqRow, dlq_rows, DeliveryListRow,
}
use webhook_delivery_engine.Db.Rows.{last_status}
use webhook_delivery_engine.Db.Audit.{IsAudited}
use webhook_delivery_engine.Db.Reads.Listing.{
  page_where-and, selected, listed_rows-All, rows_of, is_below, IsKeyed,
}
use webhook_delivery_engine.Paging.Order.{IsUnique}

abbrev pub listed_of : List DlqRow → List DeliveryListRow
listed_of [] = []
listed_of (x ∷ xs) = x.listed ∷ listed_of xs

-- A page of the DLQ without the times at which its rows were put there.
abbrev pub forget : Page DlqRow → Page DeliveryListRow
forget p = record { rows = listed_of p.rows; has_more = p.has_more }

-- What `list` selects for the status DLQ and no other filter.
abbrev pub dlq_filter : DeliveryListRow → Bool
dlq_filter = is_listed (dlq ∷ []) none none none

listed_of-take : (n : ℕ) (xs : List DlqRow) → listed_of (take n xs) ≡ take n (listed_of xs)
listed_of-take zero xs = refl
listed_of-take (suc n) [] = refl
listed_of-take (suc n) (x ∷ xs) = ap (λ l. x.listed ∷ l) (listed_of-take n xs)

length-listed_of : (xs : List DlqRow) → length (listed_of xs) ≡ length xs
length-listed_of [] = refl
length-listed_of (x ∷ xs) = ap suc (length-listed_of xs)

listed_of-insert_row :
    (x : DlqRow) (xs : List DlqRow)
    → listed_of (insert_row (λ y. y.listed.updated_at) (λ y. y.listed.id) x xs)
      ≡ insert_row (λ y. y.updated_at) (λ y. y.id) x.listed (listed_of xs)
unfolding insert_row
listed_of-insert_row x [] = refl
listed_of-insert_row x (y ∷ ys) = ground (arith, listed_of-insert_row x ys)

listed_of-order_rows :
    (xs : List DlqRow)
    → listed_of (order_rows (λ y. y.listed.updated_at) (λ y. y.listed.id) xs)
      ≡ order_rows (λ y. y.updated_at) (λ y. y.id) (listed_of xs)
unfolding order_rows
listed_of-order_rows [] = refl
listed_of-order_rows (x ∷ xs) =
    rw
      (
        listed_of-insert_row x (order_rows (λ y. y.listed.updated_at) (λ y. y.listed.id) xs),
        listed_of-order_rows xs,
      )
      refl

forget-page_where :
    (p : DlqRow → Bool) (q : DeliveryListRow → Bool) (limit : ℕ) (xs : List DlqRow)
    (ys : List DeliveryListRow)
    → listed_of (where_rows p xs) ≡ where_rows q ys
    → forget (page_where (λ y. y.listed.updated_at) (λ y. y.listed.id) p limit xs)
      ≡ page_where (λ y. y.updated_at) (λ y. y.id) q limit ys
unfolding page_where
forget-page_where p q limit xs ys e =
    let found =
      listed_of-take (limit + 1)
        (order_rows (λ y. y.listed.updated_at) (λ y. y.listed.id) (where_rows p xs))
      ∙ ap (take (limit + 1)) (
          listed_of-order_rows (where_rows p xs)
          ∙ ap (order_rows (λ y. y.updated_at) (λ y. y.id)) e) in
    λ i. record {
      rows = (listed_of-take limit _ ∙ ap (take limit) found) i;
      has_more = (ap (ltb limit) (sym (length-listed_of _) ∙ ap length found)) i;
    }

below-listed :
    (cursor : Option Cursor) (x : DlqRow)
    → below (λ y. y.listed.updated_at) (λ y. y.listed.id) cursor x ≡ is_below cursor x.listed
below-listed none x = refl
below-listed (some c) x = refl

-- Whether a listed row in DLQ has a transition to it.
abbrev HasEntry : List Transition → DeliveryListRow → Type 0
HasEntry transitions x = status_eq x.status dlq ≡ true → is_some (dlq_entry x.id transitions) ≡ true

listed_of-where_rows :
    (p : DlqRow → Bool) (q : DeliveryListRow → Bool) (transitions : List Transition)
    (xs : List DeliveryListRow)
    → ((x : DlqRow) → p x ≡ (status_eq x.listed.status dlq && q x.listed))
    → All (HasEntry transitions) xs
    → listed_of (where_rows p (dlq_rows transitions xs))
      ≡ where_rows (λ x. status_eq x.status dlq && q x) xs
unfolding dlq_rows
listed_of-where_rows p q transitions [] e h = refl
listed_of-where_rows p q transitions (x ∷ xs) e h =
    add (dlq_entry x.id transitions) h.0 (listed_of-where_rows p q transitions xs e h.1)
  where
    add :
        (entry : Option ℕ)
        → (status_eq x.status dlq ≡ true → is_some entry ≡ true)
        → listed_of (where_rows p (dlq_rows transitions xs))
          ≡ where_rows (λ x. status_eq x.status dlq && q x) xs
        → listed_of (where_rows p (add_dlq x entry (dlq_rows transitions xs)))
          ≡ where_rows (λ x. status_eq x.status dlq && q x) (x ∷ xs)
    add none has rest = ground arith
    add (some t) has rest = ground (arith, e (record { listed = x; dlq_entered_at = t }))

last_status-entry :
    (id : ℕ) (rows : List Transition)
    → last_status id rows ≡ some dlq
    → is_some (dlq_entry id rows) ≡ true
unfolding last_status dlq_entry
last_status-entry id [] h = ground arith
last_status-entry id (t ∷ rows) h = ground (arith, last_status-entry id rows)

-- By its id, a delivery finds itself.
find_later :
    (e : Delivery) (ds tail : List Delivery)
    → All (λ d. (d.id == e.id) ≡ false) tail
    → All (λ d. find_delivery d.id ds ≡ some d) tail
    → All (λ d. find_delivery d.id (e ∷ ds) ≡ some d) tail
unfolding find_delivery
find_later e ds [] apart h = tt
find_later e ds (d ∷ tail) apart h =
    (ground (arith, apart.0, h.0), find_later e ds tail apart.1 h.1)

find_each :
    (ds : List Delivery)
    → IsUnique (λ d. d.updated_at) (λ d. d.id) ds
    → All (λ d. find_delivery d.id ds ≡ some d) ds
unfolding find_delivery
find_each [] h = tt
find_each (d ∷ ds) h = (ground arith, find_later d ds ds h.0 (find_each ds h.1))

status_eq-dlq : (s : Status) → status_eq s dlq ≡ true → s ≡ dlq
status_eq-dlq s h = ground arith

HasEntry-listed_rows :
    (db : Db) → IsAudited db → IsKeyed db → All (HasEntry db.transitions) (rows_of db)
HasEntry-listed_rows db audited keyed =
    listed_rows-All (λ d. find_delivery d.id db.deliveries ≡ some d) (HasEntry db.transitions)
      db.events db.deliveries
      (λ d ev found in_dlq. last_status-entry d.id db.transitions (
        audited.traced d.id
        ∙ ap (Option.map (λ x. x.status)) found
        ∙ ap some (status_eq-dlq d.status in_dlq)))
      (find_each db.deliveries keyed)

-- The filter and the cursor of `list`, in one condition.
dlq_filter-below :
    (cursor : Option Cursor) (x : DeliveryListRow)
    → (status_eq x.status dlq && is_below cursor x) ≡ (dlq_filter x && is_below cursor x)
unfolding is_listed
dlq_filter-below cursor x = ground arith

-- The DLQ's pages are those of `list` with the status DLQ.
pub dlq_page-page_of :
    (cursor : Option Cursor) (limit : ℕ) (db : Db)
    → IsAudited db
    → IsKeyed db
    → forget (dlq_page cursor limit db)
      ≡ page_of (λ x. x.updated_at) (λ x. x.id) cursor limit (selected dlq_filter db)
dlq_page-page_of cursor limit db audited keyed =
    forget-page_where
      (λ x. is_dlq x && below (λ y. y.listed.updated_at) (λ y. y.listed.id) cursor x)
      (λ x. status_eq x.status dlq && is_below cursor x) limit
      (dlq_rows db.transitions (rows_of db)) (rows_of db)
      (listed_of-where_rows _ (is_below cursor) db.transitions (rows_of db)
        (λ x. ap (λ t. status_eq x.listed.status dlq && t) (below-listed cursor x))
        (HasEntry-listed_rows db audited keyed))
    ∙ page_where-and (λ x. x.updated_at) (λ x. x.id) dlq_filter (is_below cursor) _ limit
        (rows_of db) (dlq_filter-below cursor)
