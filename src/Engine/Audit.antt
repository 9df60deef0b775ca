-- ===== src/Engine/Audit.antt =====
-- The audit invariants hold whatever runs.
use webhook_delivery_engine.Prelude.{ℕ, ◌≤◌, List, arith}
use webhook_delivery_engine.Config.{Config}
use webhook_delivery_engine.Redis.{Redis}
use webhook_delivery_engine.Queue.{Bull}
use webhook_delivery_engine.Db.Rows.{attempt_count_of}
use webhook_delivery_engine.Db.Audit.{IsAudited}
use webhook_delivery_engine.Db.Audit.Steps.{IsLogged}
use webhook_delivery_engine.Exec.{Env, Inputs, Run, Shared}
use webhook_delivery_engine.Exec.Keeps.{IsReliable}
use webhook_delivery_engine.Worker.Signature.{Codec}
use webhook_delivery_engine.Engine.{
  Call, Schedule, program, program-Keeps, run_calls, run_calls-IsLogged, env_of, env_of-IsReliable,
}

-- Processing a job, handling a failed job, a sweep, an arriving event, a manual retry and a new or changed
-- endpoint each keep the audit invariants and lower no attempt count, whichever commands fail or lose their reply and
-- wherever the process dies, while other processes act before every command, if those keep the
-- invariants and lower no count.
pub program-IsAudited :
    {r : Redis} {b : Bull} (e : Env r b)
    → ((id n : ℕ) → IsReliable e (IsLogged id n))
    → (c : Config) (k : Codec) (call : Call) (run : Run r b) (id : ℕ) → IsAudited run.shared.db
    → let db' = (program c k call e run).1.shared.db in
      IsAudited db'
      × (attempt_count_of id run.shared.db.deliveries ≤ attempt_count_of id db'.deliveries)
program-IsAudited e rely c k call run id h =
    let after =
      (program-Keeps e rely id (attempt_count_of id run.shared.db.deliveries) c k call).at run
        (record { audited = h; reached = omega arith }) in
    (after.audited, after.reached)

-- The same for any list of calls, with any schedule of calls of other processes between the steps
-- of each, to any depth: nothing is assumed of the others but that they are such calls.
pub run_calls-IsAudited :
    {r : Redis} {b : Bull} (c : Config) (k : Codec) (sched : Schedule)
    (calls : List (Call × Inputs)) (s : Shared r b) (id : ℕ)
    → IsAudited s.db
    → let db' = (run_calls c k (env_of c k sched) calls s).db in
      IsAudited db' × (attempt_count_of id s.db.deliveries ≤ attempt_count_of id db'.deliveries)
run_calls-IsAudited c k sched calls s id h =
    let after =
      run_calls-IsLogged c k (env_of c k sched) calls id (attempt_count_of id s.db.deliveries) s
        (env_of-IsReliable c k sched) (record { audited = h; reached = omega arith }) in
    (after.audited, after.reached)
