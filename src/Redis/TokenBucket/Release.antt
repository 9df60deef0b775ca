-- ===== src/Redis/TokenBucket/Release.antt =====
-- What a release leaves: of a slot that was taken, and of a bucket that has expired.
use webhook_delivery_engine.Prelude.{
  ap, true, or_else, arith, suc, ℕ, ◌+◌, ◌*◌, ◌≤◌, ◌<◌, ◌≡◌, refl, none, some, ==_refl, lt→ltb,
  le→ltb,
}
use webhook_delivery_engine.Config.{Config}
use webhook_delivery_engine.Redis.{Redis, bucket_key}
use webhook_delivery_engine.Redis.TokenBucket.{take_token, token_bucket, try_acquire, release_token}
use webhook_delivery_engine.Queue.{Bull}
use webhook_delivery_engine.Exec.{ok, Inputs, Run, smooth, await, redis_command, pure, ◌>>=◌}
use webhook_delivery_engine.Redis.TokenBucket.Cap.{taken-get}

module _ {r : Redis} {b : Bull} (c : Config) (i : Inputs) (run : Run r b) (endpoint_id : ℕ) where
  open r use {get, get-hset, get-expire, incr_lem}

  -- A release of a slot whose bucket has expired, undisturbed, leaves a bucket of one slot, and not of
  -- the maximum, for the time to live.
  pub release_token-missing :
      (t : ℕ)
      → get (i.time run.step) (bucket_key endpoint_id) run.shared.redis ≡ none
      → 1 ≤ c.rl_max_inflight
      → i.time run.step ≤ i.time (run.step + 1)
      → t < i.time (run.step + 1) + c.rl_ttl_seconds * 1000
      → get t (bucket_key endpoint_id) (release_token c endpoint_id (smooth i) run).1.shared.redis
        ≡ some 1
  unfolding release_token redis_command await pure ◌>>=◌
  release_token-missing t missing room later before =
      rw (incr_lem, missing)
        (rw (le→ltb c.rl_max_inflight 1 room)
          (rw get-expire (rw (==_refl endpoint_id, counted, lt→ltb t _ before) refl)))
    where
      counted :
          get
            (i.time (run.step + 1))
            (bucket_key endpoint_id)
            (r.hset (i.time run.step) (bucket_key endpoint_id) 1 run.shared.redis)
          ≡ some 1
      counted =
          rw (get-hset (i.time (run.step + 1)) (i.time run.step) _ _ 1 run.shared.redis later)
            (rw (==_refl endpoint_id, missing) refl)

module _ {r : Redis} {b : Bull} (c : Config) (i : Inputs) (endpoint_id : ℕ) where
  open r use {State, get, get-hset, get-expire, incr_lem}

  -- A release from a bucket with room that lives until its last command gives one slot back.
  release_token-live :
      (n t : ℕ) (run : Run r b)
      → get (i.time run.step) (bucket_key endpoint_id) run.shared.redis ≡ some n
      → get (i.time (run.step + 1)) (bucket_key endpoint_id) run.shared.redis ≡ some n
      → suc n ≤ c.rl_max_inflight
      → i.time run.step ≤ i.time (run.step + 1)
      → t < i.time (run.step + 1) + c.rl_ttl_seconds * 1000
      → get t (bucket_key endpoint_id) (release_token c endpoint_id (smooth i) run).1.shared.redis
        ≡ some (suc n)
  unfolding release_token redis_command await pure ◌>>=◌
  release_token-live n t run live lives room later before =
      rw (incr_lem, live)
        (rw (le→ltb c.rl_max_inflight (n + 1) (omega arith)) (
          rw get-expire
            (rw (==_refl endpoint_id, counted, lt→ltb t _ before) (ap some (omega arith)))))
    where
      counted :
          get
            (i.time (run.step + 1))
            (bucket_key endpoint_id)
            (r.hset (i.time run.step) (bucket_key endpoint_id) (n + 1) run.shared.redis)
          ≡ some (n + 1)
      counted =
          rw (get-hset (i.time (run.step + 1)) (i.time run.step) _ _ (n + 1) run.shared.redis later)
            (rw (==_refl endpoint_id, live) (rw lives refl))

  -- The process after the pickup, at any later step.
  abbrev pub after_pickup : ℕ → Run r b → Run r b
  after_pickup step run = record (try_acquire c endpoint_id (smooth i) run).1 { step = step }

  -- A pickup of a bucket that reads as `suc n` slots, at most the maximum, is granted; the bucket reads as
  -- `n` until the release, and as `suc n` again after it for the time to live, if the release ends within
  -- the time to live of the pickup, times do not fall and nobody else touches Redis in the meantime.
  pub release_token-try_acquire :
      (n step t : ℕ) (run : Run r b)
      → or_else (get (i.time run.step) (bucket_key endpoint_id) run.shared.redis) c.rl_max_inflight
        ≡ suc n
      → suc n ≤ c.rl_max_inflight
      → i.time step ≤ i.time (step + 1)
      → i.time (step + 1) < i.time run.step + c.rl_ttl_seconds * 1000
      → t < i.time (step + 1) + c.rl_ttl_seconds * 1000
      → let held = after_pickup step run in
        ((try_acquire c endpoint_id (smooth i) run).0 ≡ ok true)
        × (get (i.time step) (bucket_key endpoint_id) held.shared.redis ≡ some n)
        × (get t
              (bucket_key endpoint_id)
              (release_token c endpoint_id (smooth i) held).1.shared.redis
            ≡ some (suc n))
  unfolding try_acquire token_bucket redis_command await pure ◌>>=◌ take_token
  release_token-try_acquire n step t run slots room later in_time before = (
    rw slots refl,
    reads (i.time step) (omega arith),
    release_token-live n t (after_pickup step run) (reads (i.time step) (omega arith))
        (reads (i.time (step + 1)) in_time) room later before,
  )
    where
      reads :
          (u : ℕ)
          → u < i.time run.step + c.rl_ttl_seconds * 1000
          → get u (bucket_key endpoint_id) (after_pickup step run).shared.redis ≡ some n
      reads u early = rw slots (
          taken-get r endpoint_id c.rl_max_inflight c.rl_ttl_seconds n (i.time run.step) u
            run.shared.redis early)
