-- ===== src/Redis/TokenBucket.antt =====
-- redis/tokenBucket.ts and redis/scripts/token_bucket.lua: the cap on the deliveries in flight to an
-- endpoint. The script is one atomic command; the release is up to three.
pub mod Cap
pub mod Release
use webhook_delivery_engine.Prelude.{
  ℕ, zero, suc, ◌*◌, Bool, ltb, is_some, if◌then◌else◌, Option, none, some, or_else,
}
use webhook_delivery_engine.Config.{Config}
use webhook_delivery_engine.Redis.{Redis, bucket_key, Key}
use webhook_delivery_engine.Queue.{Bull}
use webhook_delivery_engine.Exec.{M, pure, redis_command, ◌>>=◌, ◌>>◌}

module _ (r : Redis) where
  open r use {State, get, hset, expire}

  -- `tokens` are at least 0; the reply -1 is `none`.
  unfoldable pub take_token : ℕ → Key → ℕ → ℕ → ℕ → State → Option ℕ × State
  take_token now k ttl_seconds max_tokens zero s = (none, s)
  take_token now k ttl_seconds max_tokens (suc tokens) s =
      (some tokens, (expire now k (ttl_seconds * 1000) (hset now k tokens s)).1)

  unfoldable pub token_bucket : ℕ → Key → ℕ → ℕ → State → Option ℕ × State
  unfolding take_token
  token_bucket now k max_tokens ttl_seconds s =
      take_token now k ttl_seconds max_tokens (or_else (get now k s) max_tokens) s

module _ {r : Redis} {b : Bull} where
  unfoldable pub try_acquire : Config → ℕ → M r b Bool
  try_acquire c endpoint_id = do
    remaining ←
        redis_command
          λ now s. token_bucket r now (bucket_key endpoint_id) c.rl_max_inflight c.rl_ttl_seconds s
    pure (is_some remaining)

  abbrev reset_bucket : Config → ℕ → M r b (Unit {0})
  reset_bucket c endpoint_id =
      redis_command λ now s. (tt, r.hset now (bucket_key endpoint_id) c.rl_max_inflight s)

  unfoldable pub release_token : Config → ℕ → M r b (Unit {0})
  release_token c endpoint_id = do
    current ← redis_command λ now s. r.incr now (bucket_key endpoint_id) s
    (if ltb c.rl_max_inflight current then reset_bucket c endpoint_id else pure tt)
    _ ← redis_command λ now s. r.expire now (bucket_key endpoint_id) (c.rl_ttl_seconds * 1000) s
    pure tt
