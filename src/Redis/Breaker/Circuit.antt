-- ===== src/Redis/Breaker/Circuit.antt =====
-- What the breaker promises: a count of failures, and the times until which the count, the open breaker
-- and the election of a probe last. The three keys implement it.
pub mod Follows
use webhook_delivery_engine.Exec.{await, redis_command, ok, ◌>>◌}
use webhook_delivery_engine.Prelude.{
  ◌∙◌, inr, inl, Bool-cases, or_else, refl, arith, ==_refl, ◌∷◌, [],
}
use webhook_delivery_engine.Prelude.{
  false, true, leb, ◌&&◌, ◌*◌, some, none, ◌+◌, ◌≡◌, ltb, Option, ◌≤◌, List, if◌then◌else◌, ℕ, Bool,
}
use webhook_delivery_engine.Redis.{key_eq, Key, probe_key, open_key, fails_key, Redis}
use webhook_delivery_engine.Config.{Config}
use webhook_delivery_engine.Queue.{Bull}
use webhook_delivery_engine.Exec.{pure, smooth, Result, Env, ◌>>=◌, Run, Inputs, M}
use webhook_delivery_engine.Redis.Breaker.{
  elect_probe, on_probe_result, record_failure, closed, probe, open_, check_state, BreakerState,
}
use webhook_delivery_engine.Redis.Fields.{get-expire-hset_other, get-expire-hset}

-- A call by some worker, each at one time.
pub data BreakerCall : Type 0 where
  checks fails_once : BreakerCall
  reports : Bool → BreakerCall

pub record Circuit : Type 0 where
  pub fails : ℕ
  pub fails_until : ℕ
  pub open_until : ℕ
  pub probe_until : ℕ

abbrev pub value_until : ℕ → ℕ → ℕ → Option ℕ
value_until v until t = if ltb t until then some v else none

-- A reading: open; or half open, with one probe for each time of a probe; or closed.
abbrev pub read_circuit : Config → ℕ → Circuit → Option BreakerState × Circuit
read_circuit c now s =
    if ltb now s.open_until
    then (some open_, s)
    else if ltb now s.fails_until && leb c.cb_fail_threshold s.fails
    then (if ltb now s.probe_until
        then (some open_, s)
        else (some probe, record s { probe_until = now + c.cb_probe_seconds * 1000 }))
    else (some closed, s)

abbrev pub count_now : ℕ → Circuit → ℕ
count_now now s = (if ltb now s.fails_until then s.fails else 0) + 1

unfoldable pub circuit_step : Config → ℕ → BreakerCall → Circuit → Option BreakerState × Circuit
circuit_step c now checks s = read_circuit c now s
circuit_step c now fails_once s = (
  none,
  record s {
    fails = count_now now s;
    fails_until = now + c.cb_window_seconds * 1000;
    open_until =
        if leb c.cb_fail_threshold (count_now now s)
        then now + c.cb_open_seconds * 1000
        else s.open_until;
  },
)
circuit_step c now (reports true) s = (none, record s { fails_until = 0; probe_until = 0 })
circuit_step c now (reports false) s =
    (none, record s { open_until = now + c.cb_open_seconds * 1000; probe_until = 0 })

unfoldable pub circuit_run : Config → List (ℕ × BreakerCall) → Circuit → List (Option BreakerState)
unfolding circuit_step
circuit_run c [] s = []
circuit_run c ((now, call) ∷ calls) s =
    let (answer, s') = circuit_step c now call s in answer ∷ circuit_run c calls s'

-- The times of the calls do not fall, from `now` on.
abbrev pub IsOrdered : ℕ → List (ℕ × BreakerCall) → Type 0
IsOrdered now [] = Unit
IsOrdered now ((t, call) ∷ calls) = (now ≤ t) × IsOrdered t calls

module _ {r : Redis} {b : Bull} (c : Config) (id : ℕ) where
  -- The call of redis/circuitBreaker.ts.
  unfoldable pub breaker_call : BreakerCall → M r b (Option BreakerState)
  breaker_call checks = do state ← check_state c id; pure (some state)
  breaker_call fails_once = do record_failure c id; pure none
  breaker_call (reports success) = do on_probe_result c id success; pure none

  abbrev pub at_time : Inputs → ℕ → Env r b
  at_time i now = smooth (record i { time = λ step. now })

  unfoldable pub breaker_run :
      Inputs → List (ℕ × BreakerCall) → Run r b → List (Result (Option BreakerState))
  unfolding breaker_call
  breaker_run i [] run = []
  breaker_run i ((now, call) ∷ calls) run =
      let (answer, run') = breaker_call call (at_time i now) run in
      answer ∷ breaker_run i calls run'

-- From `now` on the keys read as the circuit says.
pub record Implements (r : Redis) (id now : ℕ) (s : r.State) (k : Circuit) : Type 0 where
  pub fails_read :
      (t : ℕ) → now ≤ t → r.get t (fails_key id) s ≡ value_until k.fails k.fails_until t
  pub open_read : (t : ℕ) → now ≤ t → r.get t (open_key id) s ≡ value_until 1 k.open_until t
  pub probe_read : (t : ℕ) → now ≤ t → r.get t (probe_key id) s ≡ value_until 1 k.probe_until t
