-- ===== src/Redis/Breaker/Lifecycle.antt =====
-- The life of a breaker, as one process sees it whose commands succeed.
use webhook_delivery_engine.Prelude.{
  ℕ, ◌+◌, ◌*◌, ◌<◌, ◌≡◌, refl, Bool, true, false, leb, if◌then◌else◌, none, some, or_else, ==_refl,
  lt→ltb,
}
use webhook_delivery_engine.Config.{Config}
use webhook_delivery_engine.Redis.{Redis, fails_key, open_key, probe_key}
use webhook_delivery_engine.Redis.Breaker.{
  BreakerState, closed, open_, probe, check_state, record_failure, on_probe_result, elect_probe,
}
use webhook_delivery_engine.Queue.{Bull}
use webhook_delivery_engine.Exec.{
  M, Inputs, Run, smooth, ok, await, redis_command, pure, ◌>>=◌, ◌>>◌,
}

-- The part of a smooth process that uses the breaker of one endpoint.
module _ {r : Redis} {b : Bull} (c : Config) (i : Inputs) (run : Run r b) (id : ℕ) where
  open r use {get, get-set, get-del, incr_lem}

  -- After a probe has reported a success the breaker reads closed, if the open key had expired by
  -- then; after it has reported a failure it reads open until the open key expires again.
  pub on_probe_result-check_state :
      (success : Bool)
      → (success ≡ true → get (i.time (run.step + 1)) (open_key id) run.shared.redis ≡ none)
      → (success ≡ false → i.time (run.step + 1 + 1) < i.time run.step + c.cb_open_seconds * 1000)
      → ((do on_probe_result c id success; check_state c id) (smooth i) run).0
        ≡ ok (if success then closed else open_)
  unfolding on_probe_result check_state ◌>>=◌ redis_command await pure
  on_probe_result-check_state true free early = simp (get-del, ==_refl, free refl)
  on_probe_result-check_state false free early =
      simp (get-del, get-set, ==_refl, lt→ltb _ _ (early refl))

  -- The failures after this one.
  abbrev pub next_count : ℕ
  next_count = or_else (get (i.time run.step) (fails_key id) run.shared.redis) 0 + 1

  -- The failure that brings the count to the threshold opens the breaker, until the open key
  -- expires.
  pub record_failure-check_state :
      leb c.cb_fail_threshold next_count ≡ true
      → i.time (run.step + 1 + 1 + 1) < i.time (run.step + 1 + 1) + c.cb_open_seconds * 1000
      → ((do record_failure c id; check_state c id) (smooth i) run).0 ≡ ok open_
  unfolding record_failure check_state ◌>>=◌ redis_command await pure
  record_failure-check_state reached early =
      rw incr_lem (rw reached (rw get-set (rw (==_refl id, lt→ltb _ _ early) refl)))

  -- Two readings, one after the other.
  abbrev pub twice : M r b (BreakerState × BreakerState)
  twice = do
    first ← check_state c id
    second ← check_state c id
    let states : BreakerState × BreakerState = (first, second) in pure states

  -- Of two processes that find the open key expired and the count at the threshold, the first one
  -- becomes the probe, and the second reads open while the probe key lives.
  pub check_state-one_probe :
      {fails fails' : ℕ}
      → get (i.time run.step) (open_key id) run.shared.redis ≡ none
      → get (i.time (run.step + 1)) (fails_key id) run.shared.redis ≡ some fails
      → get (i.time (run.step + 1 + 1)) (probe_key id) run.shared.redis ≡ none
      → get (i.time (run.step + 1 + 1 + 1)) (open_key id) run.shared.redis ≡ none
      → get (i.time (run.step + 1 + 1 + 1 + 1)) (fails_key id) run.shared.redis ≡ some fails'
      → leb c.cb_fail_threshold fails ≡ true
      → leb c.cb_fail_threshold fails' ≡ true
      → i.time (run.step + 1 + 1 + 1 + 1 + 1)
        < i.time (run.step + 1 + 1) + c.cb_probe_seconds * 1000
      → (twice (smooth i) run).0 ≡ ok (probe, open_)
  unfolding check_state elect_probe ◌>>=◌ redis_command await pure
  check_state-one_probe o f p o' f' reached reached' early =
      rw (o, f, reached)
        (rw (r.set_nx_free _ _ _ _ _ p)
          (rw get-set (rw (o', get-set, f', reached') (rw (r.set_nx_held _ _ _ _ _ held) refl))))
    where
      held :
          get (i.time (run.step + 1 + 1 + 1 + 1 + 1)) (probe_key id) (
            r.set
              (i.time (run.step + 1 + 1))
              (probe_key id)
              1
              (c.cb_probe_seconds * 1000)
              run.shared.redis)
          ≡ some 1
      held = rw get-set (rw (==_refl id, lt→ltb _ _ early) refl)
