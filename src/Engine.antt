-- ===== src/Engine.antt =====
-- All that writes the database, as calls of concurrent processes: jobs and their failures (worker),
-- sweeps (reconciler/index.ts), events that arrive, manual retries, and endpoints that are made or
-- changed (api).
-- A schedule says which calls the other processes make between two steps of a call, each with others
-- between its own steps again.
pub mod Audit
use webhook_delivery_engine.Prelude.{
  String, ℕ, zero, suc, Bool, Option, none, some, List, [], ◌∷◌, refl, ◌≡◌,
}
use webhook_delivery_engine.Config.{Config}
use webhook_delivery_engine.Redis.{Redis}
use webhook_delivery_engine.Queue.{Bull, Job}
use webhook_delivery_engine.Db.{Db}
use webhook_delivery_engine.Db.Deliveries.{
  claim_unenqueued, enqueue_delivery, retry_from_dlq, set_enqueued,
}
use webhook_delivery_engine.Db.Audit.Steps.{
  IsLogged, claim_tx-IsLogged, retry_tx-IsLogged, AreSame-IsLogged, set_enqueued-AreSame,
}
use webhook_delivery_engine.Exec.{
  Thrown, M, Env, Inputs, calm, start, Run, Shared, capture, pure, ◌>>=◌, ◌>>◌,
}
use webhook_delivery_engine.Exec.Keeps.{
  Keeps, IsReliable, keeps_rules, Keeps-bind, Keeps-asks, Keeps-await, Keeps-with_tx,
  Keeps-queue_command, Keeps-capture, Keeps-pure,
}
use webhook_delivery_engine.Api.Events.{EventRequest, post_events}
use webhook_delivery_engine.Api.Dlq.{post_retry}
use webhook_delivery_engine.Api.Audit.{
  patch_endpoint-Keeps, post_endpoints-Keeps, post_events-Keeps, post_retry-Keeps,
}
use webhook_delivery_engine.Worker.Signature.{Codec}
use webhook_delivery_engine.Worker.Processor.{process_delivery}
use webhook_delivery_engine.Worker.DlqHandler.{handle_failed}
use webhook_delivery_engine.Worker.Audit.{process_delivery-Keeps, handle_failed-Keeps}
use webhook_delivery_engine.Api.Endpoints.{PatchBody, patch_endpoint, CreateBody, post_endpoints}

pub data Call : Type 0 where
  processes : Job → Call
  fails : Option Job → Call
  reconciles : Call
  ingests : EventRequest → Call
  retries : ℕ → Call
  creates : Bool → String → Option CreateBody → Call
  patches : Thrown → Option ℕ → Option PatchBody → Call

module _ {r : Redis} {b : Bull} where
  -- `tick` of the reconciler: an error is logged, and the next sweep goes on.
  unfoldable pub tick : Config → M r b (Unit {0})
  tick c = do _ ← capture (claim_unenqueued c c.reconciler_batch_size); pure tt

  abbrev discard : {A : Type 0} → M r b A → M r b (Unit {0})
  discard m = m >>= λ _. pure tt

  unfoldable pub program : Config → Codec → Call → M r b (Unit {0})
  unfolding tick
  program c k (processes job) = process_delivery c k job
  program c k (fails job) = handle_failed c job
  program c k reconciles = tick c
  program c k (ingests req) = discard (post_events c req)
  program c k (retries id) = discard (post_retry c id)
  program c k (creates production secret body) = discard (post_endpoints production secret body)
  program c k (patches cast_error id body) = discard (patch_endpoint cast_error id body)

module _ {r : Redis} {b : Bull} (e : Env r b) (rely : (id n : ℕ) → IsReliable e (IsLogged id n))
    (id n : ℕ) where
  tick-Keeps : (c : Config) → Keeps e (IsLogged id n) (tick c)
  unfolding tick claim_unenqueued
  tick-Keeps c =
      Keeps-bind _ _
        (Keeps-capture _ (
          Keeps-bind _ _ (Keeps-asks _) λ locked. Keeps-bind _ _ (Keeps-asks _) λ fails.
            Keeps-await _ (rely id n) λ now s h. claim_tx-IsLogged id n _ _ locked fails now s h))
        λ _. Keeps-pure tt

  program-Keeps :
      (c : Config) (k : Codec) (call : Call) → Keeps e (IsLogged id n) (program c k call)
  unfolding program
  program-Keeps c k (processes job) = process_delivery-Keeps e rely c k job id n
  program-Keeps c k (fails job) = handle_failed-Keeps e rely c id n job
  program-Keeps c k reconciles = tick-Keeps c
  program-Keeps c k (ingests req) =
      Keeps-bind _ _ (post_events-Keeps e rely id n c req) λ _. Keeps-pure tt
  program-Keeps c k (retries delivery_id) =
      Keeps-bind _ _ (post_retry-Keeps e rely id n c delivery_id) λ _. Keeps-pure tt
  program-Keeps c k (creates production secret body) =
      Keeps-bind _ _ (post_endpoints-Keeps e rely id n production secret body) λ _. Keeps-pure tt
  program-Keeps c k (patches cast_error endpoint_id body) =
      Keeps-bind _ _ (patch_endpoint-Keeps e rely id n cast_error endpoint_id body)
        λ _. Keeps-pure tt

-- The other processes of a call: none, or at each step the calls that they make then, with others
-- between the steps of those.
pub data Schedule : Type 0 where
  alone : Schedule
  among : (ℕ → List (Call × Inputs)) → Schedule → Schedule

module _ {r : Redis} {b : Bull} (c : Config) (k : Codec) where
  -- Calls one after the other, each a process of its own.
  unfoldable pub run_calls : (Inputs → Env r b) → List (Call × Inputs) → Shared r b → Shared r b
  run_calls env [] s = s
  run_calls env ((call, inputs) ∷ calls) s =
      run_calls env calls (program c k call (env inputs) (start s)).1.shared

  unfoldable pub env_of : Schedule → Inputs → Env r b
  unfolding run_calls
  env_of alone inputs = calm inputs
  env_of (among calls inner) inputs = record {
    inputs = inputs;
    others = λ step s. run_calls (env_of inner) (calls step) s;
  }

  run_calls-IsLogged :
      (env : Inputs → Env r b) (calls : List (Call × Inputs)) (id n : ℕ) (s : Shared r b)
      → ((inputs : Inputs) (id n : ℕ) → IsReliable (env inputs) (IsLogged id n))
      → IsLogged id n s.db
      → IsLogged id n (run_calls env calls s).db
  unfolding run_calls
  run_calls-IsLogged env [] id n s rely h = h
  run_calls-IsLogged env ((call, inputs) ∷ calls) id n s rely h =
      run_calls-IsLogged env calls id n _ rely
        ((program-Keeps (env inputs) (rely inputs) id n c k call).at (start s) h)

  pub env_of-IsReliable :
      (sched : Schedule) (inputs : Inputs) (id n : ℕ)
      → IsReliable (env_of sched inputs) (IsLogged id n)
  unfolding env_of
  env_of-IsReliable alone inputs id n step s h = h
  env_of-IsReliable (among calls inner) inputs id n step s h =
      run_calls-IsLogged (env_of inner) (calls step) id n s (env_of-IsReliable inner) h
