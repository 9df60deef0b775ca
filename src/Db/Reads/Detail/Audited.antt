-- ===== src/Db/Reads/Detail/Audited.antt =====
-- The detail of a delivery whose tables meet the audit invariants.
use mathlib.Core.Option
use webhook_delivery_engine.Prelude.{
  ap, ◌∙◌, refl, ltb, arith, some, zero, if◌then◌else◌, suc, ◌++◌, [], All, ◌≡◌, ◌∷◌, ◌<◌, List, ℕ,
}
use webhook_delivery_engine.Db.Reads.Detail.{
  joined_detail, DeliveryDetail, select_detail, get_detail, attempt_detail, transition_detail,
  AttemptDetail, insert_by_number, select_attempts, select_transitions,
}
use webhook_delivery_engine.Db.Rows.{counted, last_status, numbers, down_from}
use webhook_delivery_engine.Paging.{last_row}
use webhook_delivery_engine.Db.{
  find_endpoint, find_event, find_delivery, Endpoint, Event, Delivery, Attempt, Transition,
}
use webhook_delivery_engine.Redis.{Redis}
use webhook_delivery_engine.Queue.{Bull}
use webhook_delivery_engine.Exec.{ok, smooth, Run, pure, await, query, ◌>>=◌, Inputs}
use webhook_delivery_engine.Db.Audit.{IsAudited}

-- 1, 2, ..., n
abbrev pub up_to : ℕ → List ℕ
up_to zero = []
up_to (suc n) = up_to n ++ (suc n ∷ [])

abbrev pub attempt_numbers : List AttemptDetail → List ℕ
attempt_numbers [] = []
attempt_numbers (a ∷ xs) = a.attempt_number ∷ attempt_numbers xs

insert_number : ℕ → List ℕ → List ℕ
insert_number n [] = n ∷ []
insert_number n (m ∷ ms) = let rest = insert_number n ms in if ltb m n then m ∷ rest else n ∷ m ∷ ms

sorted_numbers : List ℕ → List ℕ
unfolding insert_number
sorted_numbers [] = []
sorted_numbers (n ∷ ns) = insert_number n (sorted_numbers ns)

insert_by_number-insert_number :
    (a : AttemptDetail) (xs : List AttemptDetail)
    → attempt_numbers (insert_by_number a xs) ≡ insert_number a.attempt_number (attempt_numbers xs)
unfolding insert_by_number insert_number
insert_by_number-insert_number a [] = refl
insert_by_number-insert_number a (x ∷ xs) = ground (arith, insert_by_number-insert_number a xs)

select_attempts-sorted_numbers :
    (id : ℕ) (rows : List Attempt)
    → attempt_numbers (select_attempts id rows) ≡ sorted_numbers (numbers id rows)
unfolding select_attempts sorted_numbers numbers
select_attempts-sorted_numbers id [] = refl
select_attempts-sorted_numbers id (a ∷ rows) = ground (
  arith,
  select_attempts-sorted_numbers id rows,
  insert_by_number-insert_number (attempt_detail a) (select_attempts id rows),
)

-- Above all numbers of the list, a number goes to its end.
insert_number-last :
    (n : ℕ) (ms : List ℕ) → All (λ m. m < n) ms → insert_number n ms ≡ ms ++ (n ∷ [])
unfolding insert_number
insert_number-last n [] h = refl
insert_number-last n (m ∷ ms) h = ground (arith, h.0, insert_number-last n ms h.1)

All-append : (P : ℕ → Type 0) (ms : List ℕ) (n : ℕ) → All P ms → P n → All P (ms ++ (n ∷ []))
All-append P [] n h p = (p, tt)
All-append P (m ∷ ms) n h p = (h.0, All-append P ms n h.1 p)

up_to-below : (n k : ℕ) → n < k → All (λ m. m < k) (up_to n)
up_to-below zero k h = tt
up_to-below (suc n) k h = All-append _ (up_to n) (suc n) (up_to-below n k (omega arith)) h

sorted_numbers-down_from : (n : ℕ) → sorted_numbers (down_from n) ≡ up_to n
unfolding sorted_numbers down_from
sorted_numbers-down_from zero = refl
sorted_numbers-down_from (suc n) =
    rw (sorted_numbers-down_from n)
      (insert_number-last (suc n) (up_to n) (up_to-below n (suc n) (omega arith)))

last_row-append {ℓ} : {A : Type ℓ} (xs : List A) (x : A) → last_row (xs ++ (x ∷ [])) ≡ some x
last_row-append [] x = refl
last_row-append (y ∷ []) x = refl
last_row-append (y ∷ z ∷ xs) x = last_row-append (z ∷ xs) x

select_transitions-last :
    (id : ℕ) (rows : List Transition)
    → Option.map (λ t. t.to_status) (last_row (select_transitions id rows)) ≡ last_status id rows
unfolding select_transitions last_status
select_transitions-last id [] = refl
select_transitions-last id (t ∷ rows) = ground (
  arith,
  select_transitions-last id rows,
  last_row-append (select_transitions id rows) (transition_detail t),
)

module _ {r : Redis} {b : Bull} (i : Inputs) where
  -- If the audit invariants hold, `getDetail` of a delivery with its event and endpoint gives, undisturbed,
  -- its attempt count, its attempts numbered from 1 to that count in this order, and transitions of which
  -- the last leads to the status.
  pub get_detail-audited :
      (id : ℕ) (run : Run r b) (d : Delivery) (ev : Event) (e : Endpoint)
      → IsAudited run.shared.db
      → find_delivery id run.shared.db.deliveries ≡ some d
      → find_event d.event_id run.shared.db.events ≡ some ev
      → find_endpoint d.endpoint_id run.shared.db.endpoints ≡ some e
      → (detail : DeliveryDetail) × ((get_detail id (smooth i) run).0 ≡ ok (some detail))
        × (detail.attempt_count ≡ d.attempt_count)
        × (attempt_numbers detail.attempts ≡ up_to detail.attempt_count)
        × (Option.map (λ t. t.to_status) (last_row detail.transitions) ≡ some detail.status)
  unfolding get_detail select_detail ◌>>=◌ query await pure
  get_detail-audited id run d ev e audited found_d found_ev found_e = (
    record (joined_detail d ev e) {
      attempts = select_attempts id run.shared.db.attempts;
      transitions = select_transitions id run.shared.db.transitions;
    },
    rw (found_d, found_ev, found_e) refl,
    refl,
    select_attempts-sorted_numbers id _
        ∙ ap sorted_numbers (audited.numbered id)
        ∙ sorted_numbers-down_from _
        ∙ ap (λ o. up_to (counted o)) found_d,
    select_transitions-last id _ ∙ audited.traced id ∙ ap (Option.map (λ x. x.status)) found_d,
  )
