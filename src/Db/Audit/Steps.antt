-- ===== src/Db/Audit/Steps.antt =====
-- Every transaction keeps the audit invariants, committed or rolled back, and lowers no attempt
-- count.
use webhook_delivery_engine.Prelude.{
  ℕ, suc, ◌≤◌, ◌≡◌, ◌≢◌, refl, Bool, not, Option, some, List, [], ◌∷◌, arith, Bool-cases,
  Option-cases, inl, inr, ap, ◌∙◌, sym, length,
}
use webhook_delivery_engine.Redis.{Redis}
use webhook_delivery_engine.Queue.{Bull, original}
use webhook_delivery_engine.Db.{
  Endpoint, Db, Delivery, Transition, Status, pending, delivered, dlq, status_eq, Actor,
  manual_retry_api, Reason, find_delivery, update_delivery, insert_transition,
}
use webhook_delivery_engine.Db.Rows.{
  status_of, attempt_count_of, down_from, attempt_count_of-update_delivery,
  status_of-update_delivery_same,
}
use webhook_delivery_engine.Db.Deliveries.{
  transition_tx, set_status, set_enqueued, retry_tx, claim_tx, claim_rows, claimed, stuck_ids,
}
use webhook_delivery_engine.Db.Attempts.{RecordAttemptInput, record_attempt_tx}
use webhook_delivery_engine.Db.Audit.{
  IsAudited, move-IsAudited, move-count, record-IsAudited, record-count, IsHonest,
}
use webhook_delivery_engine.Exec.{db_after, Result, ok, err, Thrown, Shared}

-- The invariants, and a lower bound on one attempt count.
pub record IsLogged (id n : ℕ) (db : Db) : Type 0 where
  pub audited : IsAudited db
  pub reached : n ≤ attempt_count_of id db.deliveries

module _ (id n : ℕ) where
  abbrev Keeps : {A : Type 0} → Db → Result (A × Db) → Type 0
  Keeps db result = IsLogged id n db → IsLogged id n (db_after db result)

  pub transition_tx-IsLogged :
      (delivery_id : ℕ) (from to : Status) (actor : Actor) (reason : Reason) (now : ℕ) (db : Db)
      → to ≢ delivered
      → IsLogged id n db
      → IsLogged id n (db_after db (transition_tx delivery_id from to actor reason now db))
  unfolding transition_tx
  transition_tx-IsLogged delivery_id from to actor reason now db ne h =
      elim (Option-cases (
        insert_transition t
          (record db { deliveries = update_delivery delivery_id f db.deliveries }))) [
            | inl e ↦ rw e h
            | inr (db', e) ↦ rw e (record {
              audited =
                  move-IsAudited t f (λ d. refl) (λ d. omega arith) (λ d. refl) db db' e h.audited
                    ne;
              reached =
                  rw (move-count t f (λ d. refl) (λ d. omega arith) (λ d. refl) db db' e id)
                    h.reached;
            })
          ]
    where
      f : Delivery → Delivery
      f = set_status to now

      t : Transition
      t = record {
        delivery_id = delivery_id;
        from_status = some from;
        to_status = to;
        reason = reason;
        actor = actor;
        created_at = now;
      }

  -- With a number above a count that the delivery has reached by now: `uq_attempts` refuses it if
  -- somebody else has recorded it in between.
  pub record_attempt_tx-IsLogged :
      (i : RecordAttemptInput) (m now : ℕ) (db : Db)
      → i.attempt_number ≡ suc m
      → IsHonest i
      → IsLogged i.delivery_id m db
      → IsLogged id n db
      → IsLogged id n (db_after db (record_attempt_tx i now db))
  record_attempt_tx-IsLogged i m now db number honest past h =
      record_after (record_attempt_tx i now db) refl
    where
      record_after :
          (result : Result (Unit {0} × Db))
          → record_attempt_tx i now db ≡ result
          → IsLogged id n (db_after db result)
      record_after (err f) e = h
      record_after (ok (u, db')) e = record {
        audited = record-IsAudited i m now db db' e number past.reached honest h.audited;
        reached = ground (arith, record-count i m now db db' e id, h.reached);
      }

  pub retry_tx-IsLogged :
      (delivery_id now : ℕ) (db : Db)
      → IsLogged id n db
      → IsLogged id n (db_after db (retry_tx delivery_id now db))
  unfolding retry_tx
  retry_tx-IsLogged delivery_id now db h =
      elim (Option-cases (find_delivery delivery_id db.deliveries)) [
        | inl e ↦ rw e h
        | inr (d, e) ↦ rw e (elim (Bool-cases (not (status_eq d.status dlq))) [
          | inl other ↦ rw other h
          | inr parked ↦
              rw parked
                (elim (Option-cases (
                  insert_transition t
                    (record db { deliveries = update_delivery delivery_id f db.deliveries }))) [
                      | inl e ↦ rw e h
                      | inr (db', e) ↦ rw e (record {
                        audited =
                            move-IsAudited t f (λ d. refl) (λ d. omega arith) (λ d. refl) db db' e
                              h.audited (λ p. cc);
                        reached =
                            rw
                              (move-count t f (λ d. refl) (λ d. omega arith) (λ d. refl) db db' e
                                id)
                              h.reached;
                      })
                    ])
        ])
      ]
    where
      f : Delivery → Delivery
      f = set_status pending now

      t : Transition
      t = record {
        delivery_id = delivery_id;
        from_status = some dlq;
        to_status = pending;
        reason = Reason.manual_retry;
        actor = manual_retry_api;
        created_at = now;
      }

-- The same statuses and attempt counts.
pub record AreSame (ds ds' : List Delivery) : Type 0 where
  pub statuses : (id : ℕ) → status_of id ds' ≡ status_of id ds
  pub counts : (id : ℕ) → attempt_count_of id ds' ≡ attempt_count_of id ds

pub set_enqueued-AreSame :
    (delivery_id now : ℕ) (ds : List Delivery)
    → AreSame ds (update_delivery delivery_id (set_enqueued now) ds)
set_enqueued-AreSame delivery_id now ds = record {
  statuses = λ id.
      status_of-update_delivery_same delivery_id id (set_enqueued now) ds (λ d. refl) (λ d. refl);
  counts = λ id. ground (
    arith,
    attempt_count_of-update_delivery delivery_id id 0 (set_enqueued now) ds (λ d. refl)
        (λ d. omega arith),
  );
}

pub AreSame-IsLogged :
    (id n : ℕ) (db : Db) (ds : List Delivery)
    → AreSame db.deliveries ds
    → IsLogged id n db
    → IsLogged id n (record db { deliveries = ds })
AreSame-IsLogged id n db ds same h = record {
  audited = record {
    numbered = λ j. h.audited.numbered j ∙ ap down_from (sym (same.counts j));
    traced = λ j. h.audited.traced j ∙ sym (same.statuses j);
    proved = λ j e. h.audited.proved j (sym (same.statuses j) ∙ e);
  };
  reached = rw (same.counts id) h.reached;
}

-- The invariants do not read the endpoints.
pub endpoints-IsLogged :
    (id n : ℕ) (db : Db) (es : List Endpoint)
    → IsLogged id n db
    → IsLogged id n (record db { endpoints = es })
endpoints-IsLogged id n db es h = record {
  audited = record {
    numbered = h.audited.numbered;
    traced = h.audited.traced;
    proved = h.audited.proved;
  };
  reached = h.reached;
}

module _ (b : Bull) (fails : ℕ → Option Thrown) (now : ℕ) where
  claim_rows-AreSame :
      (ids : List ℕ) (ds ds' : List Delivery) (q q' : b.State)
      → claim_rows b fails now ids ds q ≡ (ok ds', q')
      → AreSame ds ds'
  unfolding claim_rows
  claim_rows-AreSame [] ds ds' q q' e = record {
    statuses = λ id. ground arith;
    counts = λ id. ground arith;
  }
  claim_rows-AreSame (id ∷ ids) ds ds' q q' e =
      let first = set_enqueued-AreSame id now ds in
      let rest =
        claim_rows-AreSame ids (update_delivery id (set_enqueued now) ds) ds'
          (b.add (original id) id q) q' (ground arith) in
      record {
        statuses = λ j. rest.statuses j ∙ first.statuses j;
        counts = λ j. rest.counts j ∙ first.counts j;
      }

module _ {r : Redis} {b : Bull} (id n : ℕ) where
  -- The reconciler's transaction, also where it is rolled back after some jobs were added.
  pub claim_tx-IsLogged :
      (grace limit : ℕ) (locked : ℕ → Bool) (fails : ℕ → Option Thrown) (now : ℕ) (s : Shared r b)
      → IsLogged id n s.db
      → IsLogged id n (claim_tx grace limit locked fails now s).1.db
  unfolding claim_tx
  claim_tx-IsLogged grace limit locked fails now s h =
      after (claim_rows b fails now ids s.db.deliveries s.queue) refl
    where
      ids : List ℕ
      ids = stuck_ids grace limit now locked s.db.deliveries

      after :
          (result : Result (List Delivery) × b.State)
          → claim_rows b fails now ids s.db.deliveries s.queue ≡ result
          → IsLogged id n (let (ds, q) = result in claimed ds q (length ids) s).1.db
      after (err f, q) e = h
      after (ok ds, q) e =
          AreSame-IsLogged id n s.db ds (claim_rows-AreSame b fails now ids _ ds _ q e) h
