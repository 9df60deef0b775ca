-- ===== src/Worker/Audit.antt =====
-- The worker keeps the audit invariants of the database.
use webhook_delivery_engine.Prelude.{ℕ, suc, ◌≡◌, ◌≢◌, refl, true, Option, none, some, arith}
use webhook_delivery_engine.Config.{Config}
use webhook_delivery_engine.Redis.{Redis}
use webhook_delivery_engine.Redis.Breaker.{BreakerState, closed, open_, probe}
use webhook_delivery_engine.Queue.{Bull, Job}
use webhook_delivery_engine.Db.{
  Db, Status, delivering, delivered, dlq, worker, AttemptOutcome, Reason,
}
use webhook_delivery_engine.Db.Rows.{attempt_count_of, is_success}
use webhook_delivery_engine.Db.Deliveries.{
  DeliveryForWorker, select_for_delivery, get_for_delivery, transition,
}
use webhook_delivery_engine.Db.Attempts.{RecordAttemptInput, record_attempt}
use webhook_delivery_engine.Db.Audit.{IsHonest}
use webhook_delivery_engine.Db.Audit.Steps.{
  IsLogged, transition_tx-IsLogged, record_attempt_tx-IsLogged,
}
use webhook_delivery_engine.Exec.{Env}
use webhook_delivery_engine.Exec.Keeps.{
  Keeps, IsReliable, keeps_rules, Keeps-with_tx, Keeps-bind, Keeps-date_now, Keeps-bind-query,
  Keeps-if, Keeps-pure, Keeps-dlq_command, Keeps-query, Keeps-emit,
}
use webhook_delivery_engine.Worker.Outcome.{Verdict, to_status}
use webhook_delivery_engine.Worker.Signature.{Codec}
use webhook_delivery_engine.Worker.Bystanders.{
  check_state-Keeps, try_acquire-Keeps, call-Keeps, postpone-Keeps, next_attempt_at-Keeps,
  breaker_bookkeeping-Keeps, clean_up-Keeps,
}
use webhook_delivery_engine.Worker.DlqHandler.{handle_failed, exhaust_row, fire_dlq_alert}
use webhook_delivery_engine.Worker.Processor.{
  fail_fast, circuit_open_input, call_input, schedule, settle, attempt_call, rate_limited_call,
  by_breaker, process_row, if_found, process_locked, process_delivery,
}

-- What the read row tells: its count stays reached.
abbrev Reached : ℕ → Option DeliveryForWorker → Db → Type 0
Reached delivery_id none db = Unit
Reached delivery_id (some d) db = IsLogged delivery_id d.attempt_count db

select-count :
    (delivery_id : ℕ) (db : Db) (d : DeliveryForWorker)
    → select_for_delivery delivery_id db ≡ some d
    → d.attempt_count ≡ attempt_count_of delivery_id db.deliveries
unfolding select_for_delivery
select-count delivery_id db d e = ground arith

select-Reached :
    (id n delivery_id : ℕ) (db : Db)
    → IsLogged id n db
    → Reached delivery_id (select_for_delivery delivery_id db) db
select-Reached id n delivery_id db h = reached (select_for_delivery delivery_id db) refl
  where
    reached :
        (found : Option DeliveryForWorker)
        → select_for_delivery delivery_id db ≡ found
        → Reached delivery_id found db
    reached none e = tt
    reached (some d) e = record {
      audited = h.audited;
      reached = omega (arith, select-count delivery_id db d e);
    }

success_of_delivered : (o : AttemptOutcome) → to_status o ≡ delivered → is_success o ≡ true
success_of_delivered o h = ground arith

-- Both bounds together.
abbrev Both : ℕ → ℕ → ℕ → ℕ → Db → Type 0
Both id n delivery_id m db = IsLogged id n db × IsLogged delivery_id m db

module _ {r : Redis} {b : Bull} (e : Env r b) (rely : (id n : ℕ) → IsReliable e (IsLogged id n))
    (id n delivery_id m : ℕ) where
  Both-IsReliable : IsReliable e (Both id n delivery_id m)
  Both-IsReliable step s h = (rely id n step s h.0, rely delivery_id m step s h.1)

  transition-Keeps :
      (from to : Status) (reason : Reason)
      → to ≢ delivered
      → Keeps e (Both id n delivery_id m) (transition delivery_id from to worker reason)
  unfolding transition
  transition-Keeps from to reason ne = Keeps-with_tx _ Both-IsReliable λ now db h. (
    transition_tx-IsLogged id n delivery_id from to worker reason now db ne h.0,
    transition_tx-IsLogged delivery_id m delivery_id from to worker reason now db ne h.1,
  )

  record_attempt-Keeps :
      (i : RecordAttemptInput)
      → i.delivery_id ≡ delivery_id
      → i.attempt_number ≡ suc m
      → IsHonest i
      → Keeps e (Both id n delivery_id m) (record_attempt i)
  unfolding record_attempt
  record_attempt-Keeps i same number honest = Keeps-with_tx _ Both-IsReliable λ now db h.
      let past : IsLogged i.delivery_id m db = rw same h.1 in
      (
        record_attempt_tx-IsLogged id n i m now db number honest past h.0,
        record_attempt_tx-IsLogged delivery_id m i m now db number honest past h.1,
      )

module _ {r : Redis} {b : Bull} (e : Env r b) (rely : (id n : ℕ) → IsReliable e (IsLogged id n))
    (c : Config) (k : Codec) (job : Job) (id n : ℕ) (d : DeliveryForWorker) where
  abbrev Logged : Db → Type 0
  Logged = Both id n job.delivery_id d.attempt_count

  Logged-IsReliable : IsReliable e Logged
  Logged-IsReliable = Both-IsReliable e rely id n job.delivery_id d.attempt_count

  fail_fast-Keeps : Keeps e Logged (fail_fast c job d)
  unfolding fail_fast
  fail_fast-Keeps =
      search
        (
          keeps_rules,
          next_attempt_at-Keeps e Logged Logged-IsReliable c,
          λ (now next : ℕ).
              record_attempt-Keeps e rely id n job.delivery_id d.attempt_count
                (circuit_open_input job d now next) refl (omega arith) (λ p. cc),
        )
        depth 9

  schedule-Keeps :
      (o : AttemptOutcome) (attempt_number : ℕ) → Keeps e Logged (schedule c o attempt_number)
  schedule-Keeps AttemptOutcome.success attempt_number = search keeps_rules
  schedule-Keeps _ attempt_number =
      search (keeps_rules, next_attempt_at-Keeps e Logged Logged-IsReliable c)

  settle-Keeps :
      (s : BreakerState) (v : Verdict) (started_at finished_at : ℕ)
      → Keeps e Logged (settle c job d s v started_at finished_at)
  unfolding settle
  settle-Keeps s v started_at finished_at =
      search
        (
          keeps_rules,
          breaker_bookkeeping-Keeps e Logged Logged-IsReliable c,
          schedule-Keeps,
          λ (next : Option ℕ).
              record_attempt-Keeps e rely id n job.delivery_id d.attempt_count
                (call_input job d v started_at finished_at next) refl (omega arith)
                (success_of_delivered v.outcome),
        )
        depth 9

  attempt_call-Keeps :
      (s : BreakerState) (token : ℕ) → Keeps e Logged (attempt_call c k job d s token)
  unfolding attempt_call
  attempt_call-Keeps s token =
      Keeps-bind _ _
        (transition-Keeps e rely id n job.delivery_id d.attempt_count d.status delivering _
          (λ p. cc))
        λ _. Keeps-bind _ _ Keeps-date_now λ millis. Keeps-bind _ _ Keeps-date_now λ started_at.
          Keeps-bind _ _ (call-Keeps e Logged Logged-IsReliable c job.delivery_id token _) λ answer.
            Keeps-bind _ _ Keeps-date_now λ finished_at. settle-Keeps s _ started_at finished_at

  rate_limited_call-Keeps :
      (s : BreakerState) (token : ℕ) → Keeps e Logged (rate_limited_call c k job d s token)
  unfolding rate_limited_call
  rate_limited_call-Keeps s token =
      search
        (
          keeps_rules,
          try_acquire-Keeps e Logged Logged-IsReliable c,
          postpone-Keeps e Logged Logged-IsReliable c,
          attempt_call-Keeps,
        )
        depth 9

  by_breaker-Keeps : (s : BreakerState) (token : ℕ) → Keeps e Logged (by_breaker c k job d token s)
  by_breaker-Keeps open_ token = fail_fast-Keeps
  by_breaker-Keeps closed token = rate_limited_call-Keeps closed token
  by_breaker-Keeps probe token = rate_limited_call-Keeps probe token

  process_row-Keeps : (token : ℕ) → Keeps e Logged (process_row c k job token d)
  unfolding process_row
  process_row-Keeps token =
      search
        (
          keeps_rules,
          check_state-Keeps e Logged Logged-IsReliable c,
          postpone-Keeps e Logged Logged-IsReliable c,
          λ (s : BreakerState). by_breaker-Keeps s token,
        )
        depth 9

module _ {r : Redis} {b : Bull} (e : Env r b) (rely : (id n : ℕ) → IsReliable e (IsLogged id n))
    (c : Config) (k : Codec) (job : Job) (id n : ℕ) where
  -- After the read, with what it told.
  abbrev Informed : Option DeliveryForWorker → Db → Type 0
  Informed none db = IsLogged id n db
  Informed (some d) db = Both id n job.delivery_id d.attempt_count db

  learn :
      (found : Option DeliveryForWorker) (db : Db)
      → IsLogged id n db
      → Reached job.delivery_id found db
      → Informed found db
  learn none db h reached = h
  learn (some d) db h reached = (h, reached)

  forget : (found : Option DeliveryForWorker) (db : Db) → Informed found db → IsLogged id n db
  forget none db h = h
  forget (some d) db h = h.0

  if_found-Keeps :
      (token : ℕ) (found : Option DeliveryForWorker)
      → Keeps e (Informed found) (if_found c k job token found)
  if_found-Keeps token none = search keeps_rules
  if_found-Keeps token (some d) = process_row-Keeps e rely c k job id n d token

  process_locked-Keeps : (token : ℕ) → Keeps e (IsLogged id n) (process_locked c k job token)
  unfolding process_locked get_for_delivery
  process_locked-Keeps token =
      Keeps-bind-query Informed (select_for_delivery job.delivery_id) (if_found c k job token)
        (rely id n) (λ db h. learn _ db h (select-Reached id n job.delivery_id db h)) forget
        (if_found-Keeps token)

  pub process_delivery-Keeps : Keeps e (IsLogged id n) (process_delivery c k job)
  unfolding process_delivery
  process_delivery-Keeps =
      search
        (
          keeps_rules,
          rely id n,
          process_locked-Keeps,
          postpone-Keeps e (IsLogged id n) (rely id n) c,
          clean_up-Keeps e (IsLogged id n) (rely id n) c,
        )
        depth 12

module _ {r : Redis} {b : Bull} (e : Env r b) (rely : (id n : ℕ) → IsReliable e (IsLogged id n))
    (c : Config) (id n : ℕ) where
  exhaust_row-Keeps :
      (delivery_id : ℕ) (found : Option DeliveryForWorker)
      → Keeps e (IsLogged id n) (exhaust_row delivery_id found)
  unfolding exhaust_row transition fire_dlq_alert
  exhaust_row-Keeps delivery_id none = search keeps_rules
  exhaust_row-Keeps delivery_id (some d) = Keeps-if _ _ _ (Keeps-pure tt) (
      Keeps-bind _ _
        (Keeps-with_tx _ (rely id n) λ now db h.
          transition_tx-IsLogged id n delivery_id d.status dlq worker _ now db (λ p. cc) h)
        λ _.
          Keeps-bind _ _ (Keeps-dlq_command _ (rely id n))
            λ _. Keeps-bind _ _ (Keeps-query _ (rely id n)) λ last. Keeps-emit _ (λ s. refl))

  pub handle_failed-Keeps : (job : Option Job) → Keeps e (IsLogged id n) (handle_failed c job)
  unfolding handle_failed get_for_delivery
  handle_failed-Keeps none = search keeps_rules
  handle_failed-Keeps (some job) = search (keeps_rules, rely id n, exhaust_row-Keeps) depth 9
