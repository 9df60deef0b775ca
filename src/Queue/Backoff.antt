-- ===== src/Queue/Backoff.antt =====
-- The delays of queue/backoff.ts.
use native.Mathlib.Nat.{mul-le-mul_left}
use webhook_delivery_engine.Prelude.{ℕ, ◌+◌, ◌*◌, ◌/◌, ◌^◌, ◌≤◌, ◌<◌, arith}
use webhook_delivery_engine.Config.{Config}
use webhook_delivery_engine.Queue.{webhook_backoff, backoff_base}

scaled :
    (base x : ℕ)
    → 2 ^ 53 ≤ x
    → x < 2 ^ 54
    → (base ≤ 2 * (base * x / 2 ^ 54) + 1) × (base * x / 2 ^ 54 ≤ base)
scaled base x low high =
    let lower : base * 2 ^ 53 ≤ base * x = mul-le-mul_left base low in
    let upper : base * x ≤ base * 2 ^ 54 = mul-le-mul_left base (omega arith) in
    (omega arith, omega arith)

-- With jitter, the delay is at least half of the attempt's base, rounded down, and at most the base.
pub webhook_backoff-bounds :
    (c : Config) (random attempts_made : ℕ)
    → random < 2 ^ 53
    → let base = backoff_base c.backoff_base_ms attempts_made in
      (base ≤ 2 * webhook_backoff c random attempts_made + 1)
      × (webhook_backoff c random attempts_made ≤ base)
unfolding webhook_backoff
webhook_backoff-bounds c random attempts_made h =
    scaled _ (2 ^ 53 + random) (omega arith) (omega arith)
