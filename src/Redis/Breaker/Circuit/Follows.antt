-- ===== src/Redis/Breaker/Circuit/Follows.antt =====
-- The breaker follows its circuit.
use mathlib.Core.Path.{ap₂}
use webhook_delivery_engine.Exec.{pure, await, ok, redis_command, ◌>>=◌, Run, Inputs}
use webhook_delivery_engine.Prelude.{
  or_else, ◌∙◌, leb, inr, false, inl, ltb, true, Bool-cases, Bool, refl, map, ==_refl, ◌+◌, ◌≡◌,
  ◌*◌, List, arith, ◌≤◌, ℕ, ◌∷◌, [],
}
use webhook_delivery_engine.Redis.{open_key, key_eq, Key, fails_key, probe_key, Redis}
use webhook_delivery_engine.Config.{Config}
use webhook_delivery_engine.Queue.{Bull}
use webhook_delivery_engine.Redis.Breaker.Circuit.{
  value_until, count_now, fails_once, IsOrdered, checks, reports, at_time, circuit_step,
  circuit_run, breaker_run, breaker_call, Implements, BreakerCall, Circuit,
}
use webhook_delivery_engine.Redis.Breaker.{
  elect_probe, check_state, record_failure, on_probe_result,
}
use webhook_delivery_engine.Redis.Fields.{get-expire-hset_other, get-expire-hset}

module _ (r : Redis) (c : Config) (id : ℕ) where
  open r use {get-set}

  -- What a reading does once it has found the breaker not open.
  half_open-Implements :
      (now : ℕ) (s : r.State) (k : Circuit)
      → Implements r id now s k
      → Implements r id now
          (r.set now (probe_key id) 1 (c.cb_probe_seconds * 1000) s)
          (record k { probe_until = now + c.cb_probe_seconds * 1000 })
  half_open-Implements now s k h = record {
    fails_read = λ t le. rw get-set (h.fails_read t le);
    open_read = λ t le. rw get-set (h.open_read t le);
    probe_read = λ t le. rw (get-set, ==_refl id) refl;
  }

  Implements-later :
      (now later : ℕ) (s : r.State) (k : Circuit)
      → now ≤ later
      → Implements r id now s k
      → Implements r id later s k
  Implements-later now later s k le h = record {
    fails_read = λ t after. h.fails_read t (omega arith);
    open_read = λ t after. h.open_read t (omega arith);
    probe_read = λ t after. h.probe_read t (omega arith);
  }

module _ {r : Redis} {b : Bull} (c : Config) (id : ℕ) (i : Inputs) where
  open r use {get-set, get-del, set_nx_free, set_nx_held, incr_lem}

  Follows : ℕ → BreakerCall → Run r b → Circuit → Type 0
  Follows now call run k =
      ((breaker_call c id call (at_time c id i now) run).0 ≡ ok (circuit_step c now call k).0)
      × Implements r id now (breaker_call c id call (at_time c id i now) run).1.shared.redis
          (circuit_step c now call k).1

  reports-Follows :
      (now : ℕ) (success : Bool) (run : Run r b) (k : Circuit)
      → Implements r id now run.shared.redis k
      → Follows now (reports success) run k
  unfolding Follows breaker_call on_probe_result circuit_step ◌>>=◌ redis_command await pure
  reports-Follows now true run k h = (
    refl,
    record {
      fails_read = λ t le. rw (get-del, get-del, ==_refl id) (ground arith);
      open_read = λ t le. rw (get-del, get-del) (h.open_read t le);
      probe_read = λ t le. rw (get-del, ==_refl id) (ground arith);
    },
  )
  reports-Follows now false run k h = (
    refl,
    record {
      fails_read = λ t le. rw (get-del, get-set) (h.fails_read t le);
      open_read = λ t le. rw (get-del, get-set, ==_refl id) refl;
      probe_read = λ t le. rw (get-del, ==_refl id) (ground arith);
    },
  )

  fails_once-Follows :
      (now : ℕ) (run : Run r b) (k : Circuit)
      → Implements r id now run.shared.redis k
      → Follows now fails_once run k
  unfolding Follows breaker_call record_failure circuit_step ◌>>=◌ redis_command await pure
  fails_once-Follows now run k h =
      rw (incr_lem, h.fails_read now (omega arith), counts)
        (elim (Bool-cases (leb c.cb_fail_threshold (count_now now k))) [
          | inl opens ↦ rw opens (
            refl,
            record {
              fails_read = λ t le. rw get-set (written t);
              open_read = λ t le. rw (get-set, ==_refl id) refl;
              probe_read = λ t le. rw get-set (other t (probe_key id) le refl ∙ h.probe_read t le);
            },
          )
          | inr below ↦ rw below (
            refl,
            record {
              fails_read = λ t le. written t;
              open_read = λ t le. other t (open_key id) le refl ∙ h.open_read t le;
              probe_read = λ t le. other t (probe_key id) le refl ∙ h.probe_read t le;
            },
          )
        ])
    where
      window : ℕ
      window = c.cb_window_seconds * 1000

      counted : r.State
      counted =
          (r.expire now (fails_key id) window
            (r.hset now (fails_key id) (count_now now k) run.shared.redis)).1

      written :
          (t : ℕ) → r.get t (fails_key id) counted ≡ value_until (count_now now k) (now + window) t
      written t = get-expire-hset r t now (count_now now k) window (fails_key id) run.shared.redis

      other :
          (t : ℕ) (j : Key)
          → now ≤ t
          → key_eq (fails_key id) j ≡ false
          → r.get t j counted ≡ r.get t j run.shared.redis
      other t j le ne =
          get-expire-hset_other r t now (count_now now k) window j (fails_key id) run.shared.redis
            le ne

      counts : or_else (value_until k.fails k.fails_until now) 0 + 1 ≡ count_now now k
      counts = ground arith

  checks-Follows :
      (now : ℕ) (run : Run r b) (k : Circuit)
      → Implements r id now run.shared.redis k
      → Follows now checks run k
  unfolding Follows breaker_call check_state elect_probe circuit_step ◌>>=◌ redis_command await pure
  checks-Follows now run k h = elim (Bool-cases (ltb now k.open_until)) [
    | inl opened ↦ rw (h.open_read now (omega arith), opened) (refl, h)
    | inr shut ↦
        rw (h.open_read now (omega arith), shut, h.fails_read now (omega arith))
          (elim (Bool-cases (ltb now k.fails_until)) [
            | inr expired ↦ rw expired (refl, h)
            | inl counted ↦ rw counted (elim (Bool-cases (leb c.cb_fail_threshold k.fails)) [
              | inr below ↦ rw below (refl, h)
              | inl reached ↦ rw reached (elim (Bool-cases (ltb now k.probe_until)) [
                | inl elected ↦
                    rw
                      (
                        set_nx_held now (probe_key id) 1 (c.cb_probe_seconds * 1000)
                            run.shared.redis {w = 1}
                            (h.probe_read now (omega arith) ∙ rw elected refl),
                        elected,
                      )
                      (refl, h)
                | inr unelected ↦
                    rw
                      (
                        set_nx_free now (probe_key id) 1 (c.cb_probe_seconds * 1000)
                            run.shared.redis (h.probe_read now (omega arith) ∙ rw unelected refl),
                        unelected,
                      )
                      (refl, half_open-Implements r c id now run.shared.redis k h)
              ])
            ])
          ])
  ]

  breaker_call-Follows :
      (now : ℕ) (call : BreakerCall) (run : Run r b) (k : Circuit)
      → Implements r id now run.shared.redis k
      → Follows now call run k
  breaker_call-Follows now checks run k h = checks-Follows now run k h
  breaker_call-Follows now fails_once run k h = fails_once-Follows now run k h
  breaker_call-Follows now (reports success) run k h = reports-Follows now success run k h

  -- From a state that reads as a circuit, any sequence of readings, failures and results of probes is answered
  -- as by that circuit, whichever workers make the calls, each at one time and with no fault, at times
  -- that do not fall.
  pub breaker_run-circuit_run :
      (now : ℕ) (calls : List (ℕ × BreakerCall)) (run : Run r b) (k : Circuit)
      → Implements r id now run.shared.redis k
      → IsOrdered now calls
      → breaker_run c id i calls run ≡ map ok (circuit_run c calls k)
  unfolding breaker_run circuit_run Follows
  breaker_run-circuit_run now [] run k h timed = refl
  breaker_run-circuit_run now ((t, call) ∷ calls) run k h (later, timed) =
      let (same, next) =
        breaker_call-Follows t call run k
          (Implements-later r c id now t run.shared.redis k later h) in
      ap₂ ◌∷◌ same (breaker_run-circuit_run t calls _ _ next timed)
