-- ===== src/Db/Audit.antt =====
-- The audit invariants of scripts/invariants.sql, as a property of the tables, and the transactions
-- that keep them.
pub mod Steps
pub mod Ingest
use webhook_delivery_engine.Prelude.{
  ℕ, zero, suc, ◌+◌, ◌≤◌, ◌≡◌, ◌≢◌, refl, Bool, true, false, ◌==◌, ◌&&◌, ◌||◌, not, if◌then◌else◌,
  Option, none, some, List, [], ◌∷◌, arith, ==→eq, ==_refl, Bool-cases, Option-cases, inl, inr,
  is_some, ap, ◌∙◌,
}
use webhook_delivery_engine.Db.{
  Db, Delivery, Attempt, Transition, Status, delivered, Actor, Reason, AttemptOutcome,
  find_delivery, update_delivery, has_attempt, insert_transition, insert_attempt,
}
use webhook_delivery_engine.Db.Rows.{
  status_of, attempt_count_of, counted, numbers, down_from, last_status, has_success,
  find-update_delivery, status_of-update_delivery, attempt_count_of-update_delivery,
  is_some-update_delivery, eq_of_free, next_number, is_success,
}
use webhook_delivery_engine.Db.Deliveries.{transition_tx, set_status}
use webhook_delivery_engine.Db.Attempts.{RecordAttemptInput, record_attempt_tx, count_attempt}
use webhook_delivery_engine.Exec.{Result, ok, err}

-- I2 and I3: the attempts of a delivery are numbered 1, 2, ... up to its `attempt_count`. The newest
-- transition leads to the current status. I5: a delivered delivery has a successful attempt.
pub record IsAudited (db : Db) : Type 0 where
  pub numbered : (id : ℕ) → numbers id db.attempts ≡ down_from (attempt_count_of id db.deliveries)
  pub traced : (id : ℕ) → last_status id db.transitions ≡ status_of id db.deliveries
  pub proved :
      (id : ℕ) → status_of id db.deliveries ≡ some delivered → has_success id db.attempts ≡ true

-- A status change with its transition row, in one transaction.
module _ (t : Transition) (f : Delivery → Delivery) (keeps_id : (d : Delivery) → (f d).id ≡ d.id)
    (keeps_count : (d : Delivery) → (f d).attempt_count ≡ d.attempt_count + 0)
    (sets_status : (d : Delivery) → (f d).status ≡ t.to_status) (db db' : Db)
    (moved : insert_transition t
        (record db { deliveries = update_delivery t.delivery_id f db.deliveries })
      ≡ some db') where
  move-status :
      (id : ℕ)
      → status_of id db'.deliveries
        ≡ (if t.delivery_id == id then some t.to_status else status_of id db.deliveries)
  unfolding insert_transition
  move-status id = ground (
    arith,
    status_of-update_delivery t.delivery_id id t.to_status f db.deliveries keeps_id sets_status,
    is_some-update_delivery t.delivery_id t.delivery_id f db.deliveries keeps_id,
  )

  pub move-count : (id : ℕ) → attempt_count_of id db'.deliveries ≡ attempt_count_of id db.deliveries
  unfolding insert_transition
  move-count id = ground (
    arith,
    attempt_count_of-update_delivery t.delivery_id id 0 f db.deliveries keeps_id keeps_count,
  )

  pub move-IsAudited : IsAudited db → t.to_status ≢ delivered → IsAudited db'
  unfolding insert_transition last_status
  move-IsAudited h ne = record {
    numbered = λ id. ground (arith, h.numbered id, move-count id);
    traced = λ id. ground (arith, h.traced id, move-status id);
    proved = λ id e. ground (arith, h.proved id, move-status id);
  }

-- Only a success is recorded as delivered.
abbrev pub IsHonest : RecordAttemptInput → Type 0
IsHonest i = i.to_status ≡ delivered → is_success i.outcome ≡ true

module _ (i : RecordAttemptInput) (n now : ℕ) (db db' : Db)
    (recorded : record_attempt_tx i now db ≡ ok (tt, db')) where
  record-free : has_attempt i.delivery_id i.attempt_number db.attempts ≡ false
  unfolding record_attempt_tx insert_attempt insert_transition
  record-free = ground arith

  record-status :
      (id : ℕ)
      → status_of id db'.deliveries
        ≡ (if i.delivery_id == id then some i.to_status else status_of id db.deliveries)
  unfolding record_attempt_tx insert_attempt insert_transition
  record-status id = ground (
    arith,
    status_of-update_delivery i.delivery_id id i.to_status (count_attempt i now) db.deliveries
        (λ d. refl) (λ d. refl),
  )

  pub record-count :
      (id : ℕ)
      → attempt_count_of id db'.deliveries ≡ (
          if i.delivery_id == id
          then attempt_count_of id db.deliveries + 1
          else attempt_count_of id db.deliveries)
  unfolding record_attempt_tx insert_attempt insert_transition
  record-count id = ground (
    arith,
    attempt_count_of-update_delivery i.delivery_id id 1 (count_attempt i now) db.deliveries
        (λ d. refl) (λ d. refl),
  )

  record-numbers :
      (id : ℕ)
      → numbers id db'.attempts ≡ (
          if i.delivery_id == id
          then i.attempt_number ∷ numbers id db.attempts
          else numbers id db.attempts)
  unfolding record_attempt_tx insert_attempt insert_transition numbers
  record-numbers id = ground arith

  record-has_success :
      (id : ℕ)
      → has_success id db'.attempts
        ≡ ((i.delivery_id == id && is_success i.outcome) || has_success id db.attempts)
  unfolding record_attempt_tx insert_attempt insert_transition has_success
  record-has_success id = ground arith

  record-last_status :
      (id : ℕ)
      → last_status id db'.transitions
        ≡ (if i.delivery_id == id then some i.to_status else last_status id db.transitions)
  unfolding record_attempt_tx insert_attempt insert_transition last_status
  record-last_status id = ground arith

  record-numbered :
      i.attempt_number ≡ suc n
      → n ≤ attempt_count_of i.delivery_id db.deliveries
      → ((id : ℕ) → numbers id db.attempts ≡ down_from (attempt_count_of id db.deliveries))
      → (id : ℕ) → numbers id db'.attempts ≡ down_from (attempt_count_of id db'.deliveries)
  record-numbered number le numbered id = elim (Bool-cases (i.delivery_id == id)) [
    | inl same ↦
        rw (record-numbers id, record-count id, same, number)
          (next_number n _ _ (numbered id)
            (the_count ∙ ap (λ j. attempt_count_of j db.deliveries) (==→eq _ _ same)))
    | inr other ↦ rw (record-numbers id, record-count id, other) (numbered id)
  ]
    where
      the_count : n ≡ attempt_count_of i.delivery_id db.deliveries
      the_count =
          eq_of_free i.delivery_id n _ db.attempts (numbered i.delivery_id) le
            (rw number at record-free)

  pub record-IsAudited :
      i.attempt_number ≡ suc n
      → n ≤ attempt_count_of i.delivery_id db.deliveries
      → IsHonest i
      → IsAudited db
      → IsAudited db'
  record-IsAudited number le honest h = record {
    numbered = record-numbered number le h.numbered;
    traced = λ id. ground (arith, record-last_status id, record-status id, h.traced id);
    proved = λ id e. ground (arith, record-has_success id, record-status id, h.proved id);
  }
