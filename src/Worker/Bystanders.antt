-- ===== src/Worker/Bystanders.antt =====
-- The parts of a delivery that only touch Redis, the queue or the network keep whatever the other
-- processes keep of the database.
use webhook_delivery_engine.Prelude.{ℕ, zero, suc, Bool, true, false, Option, none, some, refl, ◌∷◌}
use webhook_delivery_engine.Config.{Config}
use webhook_delivery_engine.Redis.{Redis}
use webhook_delivery_engine.Redis.Breaker.{
  BreakerState, probe, check_state, record_failure, on_probe_result,
}
use webhook_delivery_engine.Redis.TokenBucket.{try_acquire, release_token}
use webhook_delivery_engine.Queue.{Bull, JobId}
use webhook_delivery_engine.Db.{Db, AttemptOutcome}
use webhook_delivery_engine.Exec.{M, Env, Post, Result, ok, err}
use webhook_delivery_engine.Exec.Keeps.{
  Keeps, IsReliable, keeps_rules, Keeps-await, Keeps-emit, Keeps-bind,
}
use webhook_delivery_engine.Worker.HttpClient.{deliver, receive}
use webhook_delivery_engine.Worker.Heartbeat.{ticks, unhandled, with_lock_heartbeat}
use webhook_delivery_engine.Worker.Processor.{
  postpone, next_attempt_at, breaker_bookkeeping, release_held, clean_up,
}

module _ {r : Redis} {b : Bull} (e : Env r b) (D : Db → Type 0) (rely : IsReliable e D)
    (c : Config) where
  pub check_state-Keeps : (id : ℕ) → Keeps e D (check_state c id)
  unfolding check_state
  check_state-Keeps id = search keeps_rules depth 9

  record_failure-Keeps : (id : ℕ) → Keeps e D (record_failure c id)
  unfolding record_failure
  record_failure-Keeps id = search keeps_rules depth 9

  on_probe_result-Keeps : (id : ℕ) (flag : Bool) → Keeps e D (on_probe_result c id flag)
  unfolding on_probe_result
  on_probe_result-Keeps id true = search keeps_rules
  on_probe_result-Keeps id false = search keeps_rules

  pub try_acquire-Keeps : (id : ℕ) → Keeps e D (try_acquire c id)
  unfolding try_acquire
  try_acquire-Keeps id = search keeps_rules

  release_token-Keeps : (id : ℕ) → Keeps e D (release_token c id)
  unfolding release_token
  release_token-Keeps id = search keeps_rules depth 9

  unhandled-Keeps : (a : Result Bool) → Keeps e D (unhandled a)
  unhandled-Keeps (ok x) = search keeps_rules
  unhandled-Keeps (err f) = search keeps_rules

  pub ticks-Keeps : (id token n : ℕ) (lost : Bool) → Keeps e D (ticks c id token n lost)
  unfolding ticks
  ticks-Keeps id token zero lost = search keeps_rules
  ticks-Keeps id token (suc n) lost =
      search (keeps_rules, unhandled-Keeps, ticks-Keeps id token n) depth 9

  receive-Keeps : Keeps e D receive
  receive-Keeps = Keeps-bind _ _ (search keeps_rules) λ a. Keeps-await _ rely (λ now s h. h)

  pub deliver-Keeps :
      (post : Post) (during : M r b Bool) → Keeps e D during → Keeps e D (deliver c post during)
  unfolding deliver
  deliver-Keeps post during kd =
      search
        (
          keeps_rules,
          Keeps-emit (λ s. record s { posts = post ∷ s.posts }) (λ s. refl),
          receive-Keeps,
        )
        depth 9

  pub call-Keeps :
      (id token : ℕ) (post : Post) → Keeps e D (with_lock_heartbeat c id token (deliver c post))
  unfolding with_lock_heartbeat
  call-Keeps id token post =
      Keeps-bind _ _ (search keeps_rules) λ n. deliver-Keeps post _ (ticks-Keeps id token n false)

  pub postpone-Keeps : (id : JobId) (delay : ℕ) → Keeps e D (postpone id delay)
  unfolding postpone
  postpone-Keeps id delay = search keeps_rules depth 9

  pub next_attempt_at-Keeps : (n : ℕ) → Keeps e D (next_attempt_at c n)
  unfolding next_attempt_at
  next_attempt_at-Keeps n = search keeps_rules depth 9

  pub breaker_bookkeeping-Keeps :
      (s : BreakerState) (id : ℕ) (o : AttemptOutcome) → Keeps e D (breaker_bookkeeping c s id o)
  unfolding breaker_bookkeeping
  breaker_bookkeeping-Keeps probe id o = on_probe_result-Keeps id _
  breaker_bookkeeping-Keeps _ id o = search (keeps_rules, record_failure-Keeps)

  pub release_held-Keeps : (held : Option ℕ × Bool) → Keeps e D (release_held c held)
  release_held-Keeps (some id, true) = release_token-Keeps id
  release_held-Keeps (some id, false) = search keeps_rules
  release_held-Keeps (none, flag) = search keeps_rules

  pub clean_up-Keeps : (id token : ℕ) → Keeps e D (clean_up c id token)
  unfolding clean_up
  clean_up-Keeps id token = search (keeps_rules, release_held-Keeps) depth 9
