-- ===== src/Db/Rows.antt =====
-- Reading the tables after the statements of Db.
use mathlib.Core.Option
use native.Mathlib.Numerals.{add-one}
use webhook_delivery_engine.Prelude.{
  ℕ, zero, suc, ◌+◌, ◌≤◌, ◌≡◌, refl, Bool, true, false, ◌==◌, ◌&&◌, ◌||◌, if◌then◌else◌, Option,
  none, some, List, [], ◌∷◌, arith, is_some, ap,
}
use webhook_delivery_engine.Db.{
  Delivery, Attempt, Transition, Status, AttemptOutcome, find_delivery, update_delivery,
  has_attempt,
}

abbrev pub status_of : ℕ → List Delivery → Option Status
status_of id ds = Option.map (λ d. d.status) (find_delivery id ds)

-- 0 where there is no such row.
abbrev pub counted : Option Delivery → ℕ
counted none = 0
counted (some d) = d.attempt_count

abbrev pub attempt_count_of : ℕ → List Delivery → ℕ
attempt_count_of id ds = counted (find_delivery id ds)

-- The attempt numbers of a delivery, newest row first.
unfoldable pub numbers : ℕ → List Attempt → List ℕ
numbers id [] = []
numbers id (a ∷ rows) =
    let rest = numbers id rows in if a.delivery_id == id then a.attempt_number ∷ rest else rest

-- n, n - 1, ..., 1
unfoldable pub down_from : ℕ → List ℕ
down_from zero = []
down_from (suc n) = suc n ∷ down_from n

-- `to_status` of the newest transition of a delivery.
unfoldable pub last_status : ℕ → List Transition → Option Status
last_status id [] = none
last_status id (t ∷ rows) = if t.delivery_id == id then some t.to_status else last_status id rows

abbrev pub is_success : AttemptOutcome → Bool
is_success AttemptOutcome.success = true
is_success _ = false

unfoldable pub has_success : ℕ → List Attempt → Bool
has_success id [] = false
has_success id (a ∷ rows) =
    let rest = has_success id rows in (a.delivery_id == id && is_success a.outcome) || rest

pub find-update_delivery :
    (id j : ℕ) (f : Delivery → Delivery) (ds : List Delivery)
    → ((d : Delivery) → (f d).id ≡ d.id)
    → find_delivery j (update_delivery id f ds)
      ≡ (if id == j then Option.map f (find_delivery j ds) else find_delivery j ds)
unfolding find_delivery update_delivery
find-update_delivery id j f [] keep = ground arith
find-update_delivery id j f (d ∷ ds) keep =
    ground (arith, keep d, find-update_delivery id j f ds keep)

contains : ℕ → List ℕ → Bool
contains n [] = false
contains n (m ∷ ms) = if m == n then true else contains n ms

has_attempt-contains :
    (id n : ℕ) (rows : List Attempt) → has_attempt id n rows ≡ contains n (numbers id rows)
unfolding has_attempt contains numbers
has_attempt-contains id n [] = refl
has_attempt-contains id n (a ∷ rows) = ground (arith, has_attempt-contains id n rows)

contains-down_from : (n count : ℕ) → suc n ≤ count → contains (suc n) (down_from count) ≡ true
unfolding contains down_from
contains-down_from n zero h = absurd (omega arith)
contains-down_from n (suc count) h = ground (arith, contains-down_from n count)

-- A number up to the count is refused by `uq_attempts`, if the rows are numbered down from it.
pub eq_of_free :
    (id n count : ℕ) (rows : List Attempt)
    → numbers id rows ≡ down_from count
    → n ≤ count
    → has_attempt id (suc n) rows ≡ false
    → n ≡ count
eq_of_free id n count rows numbered le free = ground (
  arith,
  has_attempt-contains id (suc n) rows,
  contains-down_from n count,
  ap (contains (suc n)) numbered,
)

pub status_of-update_delivery :
    (id j : ℕ) (to : Status) (f : Delivery → Delivery) (ds : List Delivery)
    → ((d : Delivery) → (f d).id ≡ d.id)
    → ((d : Delivery) → (f d).status ≡ to)
    → status_of j (update_delivery id f ds)
      ≡ (if id == j && is_some (find_delivery j ds) then some to else status_of j ds)
unfolding find_delivery update_delivery
status_of-update_delivery id j to f [] keep sets = ground arith
status_of-update_delivery id j to f (d ∷ ds) keep sets =
    ground (arith, keep d, sets d, status_of-update_delivery id j to f ds keep sets)

pub attempt_count_of-update_delivery :
    (id j n : ℕ) (f : Delivery → Delivery) (ds : List Delivery)
    → ((d : Delivery) → (f d).id ≡ d.id)
    → ((d : Delivery) → (f d).attempt_count ≡ d.attempt_count + n)
    → attempt_count_of j (update_delivery id f ds) ≡ (
        if id == j && is_some (find_delivery j ds)
        then attempt_count_of j ds + n
        else attempt_count_of j ds)
unfolding find_delivery update_delivery
attempt_count_of-update_delivery id j n f [] keep adds = ground arith
attempt_count_of-update_delivery id j n f (d ∷ ds) keep adds =
    ground (arith, keep d, adds d, attempt_count_of-update_delivery id j n f ds keep adds)

pub is_some-update_delivery :
    (id j : ℕ) (f : Delivery → Delivery) (ds : List Delivery)
    → ((d : Delivery) → (f d).id ≡ d.id)
    → is_some (find_delivery j (update_delivery id f ds)) ≡ is_some (find_delivery j ds)
unfolding find_delivery update_delivery
is_some-update_delivery id j f [] keep = refl
is_some-update_delivery id j f (d ∷ ds) keep =
    ground (arith, keep d, is_some-update_delivery id j f ds keep)

-- The row after `count` rows that are numbered down from it.
pub next_number :
    (n count : ℕ) (ns : List ℕ)
    → ns ≡ down_from count
    → n ≡ count
    → suc n ∷ ns ≡ down_from (count + 1)
unfolding down_from
next_number n count ns numbered e = rw (add-one, numbered, e) refl

pub status_of-update_delivery_same :
    (id j : ℕ) (f : Delivery → Delivery) (ds : List Delivery)
    → ((d : Delivery) → (f d).id ≡ d.id)
    → ((d : Delivery) → (f d).status ≡ d.status)
    → status_of j (update_delivery id f ds) ≡ status_of j ds
unfolding find_delivery update_delivery
status_of-update_delivery_same id j f [] keep same = refl
status_of-update_delivery_same id j f (d ∷ ds) keep same =
    ground (arith, keep d, same d, status_of-update_delivery_same id j f ds keep same)
