-- ===== src/Worker/DlqHandler/Exhausted.antt =====
-- What becomes of a delivery whose attempts are used up.
use webhook_delivery_engine.Prelude.{
  none, arith, Any, ◌==◌, [], Any-map, if◌then◌else◌, All, List, Option, ℕ, ◌≡◌, ◌≤◌, refl, true,
  false, some, ◌∷◌, inl, inr, ◌⊎◌, Bool-cases, Option-cases, length, ltb, le→ltb,
}
use webhook_delivery_engine.Config.{Config}
use webhook_delivery_engine.Redis.{Redis}
use webhook_delivery_engine.Queue.{Bull, Job, original}
use webhook_delivery_engine.Db.{Attempt, dlq, worker, Reason, status_eq}
use webhook_delivery_engine.Db.Rows.{status_of}
use webhook_delivery_engine.Db.Deliveries.{
  DeliveryForWorker, get_for_delivery, transition, select_for_delivery,
}
use webhook_delivery_engine.Db.Deliveries.Moves.{moved, moves, status_of-moved, selected}
use webhook_delivery_engine.Exec.{
  LastAttemptSummary, Inputs, Run, Shared, smooth, pure, emit, query, capture, dlq_command, await,
  with_tx, ◌>>=◌,
}
use webhook_delivery_engine.Worker.DlqHandler.{
  better, handle_failed, exhaust_row, fire_dlq_alert, last_attempt, summary,
}

-- No attempt of the delivery has a higher number than `a`.
abbrev pub IsNewest : ℕ → List Attempt → Attempt → Type 0
IsNewest id rows a =
    (a.delivery_id == id) ≡ true
    × All (λ x. (x.delivery_id == id) ≡ true → x.attempt_number ≤ a.attempt_number) rows

-- The summary has the columns of the delivery's attempt with the highest number, or there is no attempt.
abbrev pub IsLast : ℕ → List Attempt → Option LastAttemptSummary → Type 0
IsLast id rows none = All (λ x. (x.delivery_id == id) ≡ false) rows
IsLast id rows (some shown) =
    Any
      (λ a.
        IsNewest id rows a
        × (shown.attempt_number ≡ a.attempt_number)
        × (shown.outcome ≡ a.outcome)
        × (shown.http_status ≡ a.http_status)
        × (shown.error_message ≡ a.error_message))
      rows

-- What the query picks.
abbrev IsPicked : ℕ → List Attempt → Option Attempt → Type 0
IsPicked id rows none = All (λ x. (x.delivery_id == id) ≡ false) rows
IsPicked id rows (some a) = Any (λ y. y ≡ a) rows × IsNewest id rows a

module _ (id : ℕ) where
  below-higher :
      (a a' : Attempt) (rows : List Attempt)
      → a'.attempt_number ≤ a.attempt_number
      → All (λ x. (x.delivery_id == id) ≡ true → x.attempt_number ≤ a'.attempt_number) rows
      → All (λ x. (x.delivery_id == id) ≡ true → x.attempt_number ≤ a.attempt_number) rows
  below-higher a a' [] le h = tt
  below-higher a a' (x ∷ rows) le (h, hs) =
      ((λ e. omega (arith, h e)), below-higher a a' rows le hs)

  below-none :
      (a : Attempt) (rows : List Attempt)
      → All (λ x. (x.delivery_id == id) ≡ false) rows
      → All (λ x. (x.delivery_id == id) ≡ true → x.attempt_number ≤ a.attempt_number) rows
  below-none a [] h = tt
  below-none a (x ∷ rows) (h, hs) = ((λ e. absurd cc), below-none a rows hs)

  pick-IsPicked :
      (x : Attempt) (rows : List Attempt) (rest : Option Attempt)
      → IsPicked id rows rest
      → IsPicked id (x ∷ rows) (if x.delivery_id == id then better x rest else rest)
  pick-IsPicked x rows none h = elim (Bool-cases (x.delivery_id == id)) [
    | inl own ↦ rw own (inl refl, (own, ((λ e. omega arith), below-none x rows h)))
    | inr other ↦ rw other (other, h)
  ]
  pick-IsPicked x rows (some a) (found, (own_a, most)) = elim (Bool-cases (x.delivery_id == id)) [
    | inr other ↦ rw other (inr found, (own_a, ((λ e. absurd cc), most)))
    | inl own ↦ elim (Bool-cases (ltb x.attempt_number a.attempt_number)) [
      | inl lower ↦ rw (own, lower) (inr found, (own_a, ((λ e. ground arith), most)))
      | inr higher ↦
          rw (own, higher)
            (inl refl, (own, ((λ e. omega arith), below-higher x a rows (ground arith) most)))
    ]
  ]

  last_attempt-IsPicked : (rows : List Attempt) → IsPicked id rows (last_attempt id rows)
  unfolding last_attempt
  last_attempt-IsPicked [] = tt
  last_attempt-IsPicked (x ∷ rows) =
      pick-IsPicked x rows (last_attempt id rows) (last_attempt-IsPicked rows)

  summary-IsLast :
      (rows : List Attempt) (picked : Option Attempt)
      → IsPicked id rows picked
      → IsLast id rows (summary picked)
  summary-IsLast rows none h = h
  summary-IsLast rows (some a) (found, newest) =
      Any-map rows (λ y e. rw e (newest, refl, refl, refl, refl)) found

module _ {r : Redis} {b : Bull} (c : Config) (i : Inputs) (job : Job) (run : Run r b) where
  abbrev pub after_failure : Shared r b
  after_failure = (handle_failed c (some job) (smooth i) run).1.shared

  -- When the last attempt has failed and the delivery is not in DLQ yet, whatever its status else, the
  -- handler, undisturbed, moves it to DLQ, adds a job for it to the DLQ queue, and fires one alert with
  -- its attempt of the highest number, or with none where it has no attempt.
  pub handle_failed-exhausted :
      (d : DeliveryForWorker)
      → length c.backoff_base_ms ≤ job.attempts_made
      → select_for_delivery job.delivery_id run.shared.db ≡ some d
      → status_eq d.status dlq ≡ false
      → (status_of job.delivery_id after_failure.db.deliveries ≡ some dlq)
        × (after_failure.dlq_queue
            ≡ b.add (original job.delivery_id) job.delivery_id run.shared.dlq_queue)
        × ((last : Option LastAttemptSummary) × IsLast job.delivery_id run.shared.db.attempts last
            × (after_failure.alerts
                ≡ record { delivery_id = d.id; endpoint_url = d.endpoint_url; last_attempt = last }
                  ∷ run.shared.alerts))
  unfolding handle_failed exhaust_row get_for_delivery transition fire_dlq_alert ◌>>=◌ pure emit
      query capture dlq_command await with_tx moved
  handle_failed-exhausted d used found other =
      rw (after_failure, le→ltb job.attempts_made (length c.backoff_base_ms) used)
        (rw found (
          rw other (
            rw
              (moves job.delivery_id d.status dlq worker Reason.attempts_exhausted _ run.shared.db
                (selected job.delivery_id run.shared.db found))
              (
                status_of-moved job.delivery_id d.status dlq worker Reason.attempts_exhausted _
                    run.shared.db (selected job.delivery_id run.shared.db found),
                refl,
                (
                  summary (last_attempt job.delivery_id run.shared.db.attempts),
                  summary-IsLast job.delivery_id run.shared.db.attempts _
                      (last_attempt-IsPicked job.delivery_id run.shared.db.attempts),
                  refl,
                ),
              ))))

  -- While attempts are left, and for a delivery that is in DLQ already or has no row, the handler,
  -- undisturbed, changes nothing: a second run of it moves, enqueues and alerts nothing.
  pub handle_failed-nothing :
      (ltb job.attempts_made (length c.backoff_base_ms) ≡ true)
        ⊎ ((d : DeliveryForWorker)
            → select_for_delivery job.delivery_id run.shared.db ≡ some d
            → status_eq d.status dlq ≡ true)
      → after_failure ≡ run.shared
  unfolding handle_failed exhaust_row get_for_delivery ◌>>=◌ pure query capture await
  handle_failed-nothing (inl more) = rw (after_failure, more) refl
  handle_failed-nothing (inr parked) =
      elim (Bool-cases (ltb job.attempts_made (length c.backoff_base_ms))) [
        | inl more ↦ rw (after_failure, more) refl
        | inr used ↦ elim (Option-cases (select_for_delivery job.delivery_id run.shared.db)) [
          | inl e ↦ rw (after_failure, used) (rw e refl)
          | inr (d, e) ↦ rw (after_failure, used) (rw e (rw (parked d e) refl))
        ]
      ]
