-- ===== src/Redis/Breaker.antt =====
-- redis/circuitBreaker.ts: the breaker of an endpoint, three keys in Redis.
pub mod Lifecycle
pub mod Circuit
use webhook_delivery_engine.Prelude.{
  ℕ, ◌*◌, ◌≡◌, Bool, true, false, leb, is_some, if◌then◌else◌, Option, none, some, or_else,
}
use webhook_delivery_engine.Config.{Config}
use webhook_delivery_engine.Redis.{Redis, fails_key, open_key, probe_key}
use webhook_delivery_engine.Queue.{Bull}
use webhook_delivery_engine.Exec.{M, pure, redis_command, ◌>>=◌, ◌>>◌}

pub data BreakerState : Type 0 where
  closed open_ probe : BreakerState

-- `fails !== null && Number(fails) >= threshold`
abbrev pub reaches : ℕ → Option ℕ → Bool
reaches threshold none = false
reaches threshold (some fails) = leb threshold fails

module _ {r : Redis} {b : Bull} where
  abbrev pub exists : ℕ → M r b Bool
  exists endpoint_id = redis_command λ now s. (is_some (r.get now (open_key endpoint_id) s), s)

  abbrev pub open_breaker : Config → ℕ → M r b (Unit {0})
  open_breaker c endpoint_id =
      redis_command λ now s. (tt, r.set now (open_key endpoint_id) 1 (c.cb_open_seconds * 1000) s)

  unfoldable pub record_failure : Config → ℕ → M r b (Unit {0})
  record_failure c endpoint_id = do
    fails ← redis_command λ now s. r.incr now (fails_key endpoint_id) s
    _ ← redis_command λ now s. r.expire now (fails_key endpoint_id) (c.cb_window_seconds * 1000) s
    if leb c.cb_fail_threshold fails then open_breaker c endpoint_id else pure tt

  unfoldable pub elect_probe : Config → ℕ → M r b BreakerState
  elect_probe c endpoint_id = do
    won ←
        redis_command λ now s. r.set_nx now (probe_key endpoint_id) 1 (c.cb_probe_seconds * 1000) s
    pure (if won then probe else open_)

  unfoldable pub check_state : Config → ℕ → M r b BreakerState
  unfolding elect_probe
  check_state c endpoint_id = do
    is_open ← exists endpoint_id
    if is_open then pure open_ else do
      fails ← redis_command λ now s. (r.get now (fails_key endpoint_id) s, s)
      if reaches c.cb_fail_threshold fails then elect_probe c endpoint_id else pure closed

  unfoldable pub on_probe_result : Config → ℕ → Bool → M r b (Unit {0})
  on_probe_result c endpoint_id true =
      redis_command λ now s. (tt, r.del (probe_key endpoint_id) (r.del (fails_key endpoint_id) s))
  on_probe_result c endpoint_id false = do
    open_breaker c endpoint_id
    redis_command λ now s. (tt, r.del (probe_key endpoint_id) s)
