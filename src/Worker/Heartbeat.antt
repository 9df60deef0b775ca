-- ===== src/Worker/Heartbeat.antt =====
-- worker/heartbeat.ts. Each tick extends the lock; an extension that throws is an unhandled
-- rejection, which ends the process.
use webhook_delivery_engine.Prelude.{ℕ, zero, suc, Bool, false, not, ◌||◌}
use webhook_delivery_engine.Config.{Config}
use webhook_delivery_engine.Redis.{Redis}
use webhook_delivery_engine.Redis.Lock.{extend}
use webhook_delivery_engine.Queue.{Bull}
use webhook_delivery_engine.Exec.{
  M, Result, ok, err, crashed, pure, throw, asks, capture, redis_command, ◌>>=◌,
}

module _ {r : Redis} {b : Bull} where
  abbrev pub unhandled : Result Bool → M r b Bool
  unhandled (ok still_held) = pure still_held
  unhandled (err _) = throw crashed

  -- One callback of the interval: whether the lock is lost by now.
  unfoldable pub tick : Config → ℕ → ℕ → Bool → M r b Bool
  tick c delivery_id token lock_lost = do
    reply ← capture (redis_command (λ now s. extend r c now delivery_id token s))
    still_held ← unhandled reply
    pure (lock_lost || not still_held)

  unfoldable pub ticks : Config → ℕ → ℕ → ℕ → Bool → M r b Bool
  unfolding tick
  ticks c delivery_id token zero lock_lost = pure lock_lost
  ticks c delivery_id token (suc n) lock_lost = do
    lost ← tick c delivery_id token lock_lost
    ticks c delivery_id token n lost

  -- `fn` is given the ticks that run while it waits; `lockLost` starts as false.
  unfoldable pub with_lock_heartbeat :
      {A : Type 0} → Config → ℕ → ℕ → (M r b Bool → M r b A) → M r b A
  unfolding ticks
  with_lock_heartbeat c delivery_id token fn = do
    beats ← asks (λ e step. e.beats step)
    fn (ticks c delivery_id token beats false)
