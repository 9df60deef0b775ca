-- ===== src/Tests/Buckets.antt =====
-- The theorems on the in-flight cap at concrete inputs.
use webhook_delivery_engine.Redis.Breaker.{BreakerState, closed, open_, probe}
use webhook_delivery_engine.Prelude.{
  false, none, map, Option, ℕ, ◌≤◌, ◌≡◌, refl, true, some, List, [], ◌∷◌, arith,
}
use webhook_delivery_engine.Config.{Config, defaults}
use webhook_delivery_engine.Redis.{bucket_key}
use webhook_delivery_engine.Redis.TokenBucket.{release_token, try_acquire}
use webhook_delivery_engine.Redis.TokenBucket.Cap.{grants, grants-bounded}
use webhook_delivery_engine.Redis.TokenBucket.Release.{release_token-try_acquire, after_pickup}
use webhook_delivery_engine.Exec.{smooth, start, ok}
use webhook_delivery_engine.Tests.Memory.{memory, empty_keys, hset, Keyspace}
use webhook_delivery_engine.Tests.World.{world, inputs}
use webhook_delivery_engine.Redis.Breaker.Circuit.{
  reports, checks, Implements, fails_once, breaker_run, BreakerCall, Circuit, circuit_run,
}
use webhook_delivery_engine.Redis.Breaker.Circuit.Follows.{breaker_run-circuit_run}

abbrev pickups : List ℕ
pickups = 10 ∷ 20 ∷ 3_000 ∷ []

-- Two slots are left.
abbrev two_left : Keyspace
two_left = hset 0 (bucket_key 1) 2 empty_keys

grants-bounded_example : grants memory 1 50 120 pickups two_left ≤ 2
grants-bounded_example =
    grants-bounded memory 1 50 120 2 0 120_000 pickups two_left (λ t later before. refl)
      (omega arith)
      (omega arith, omega arith, (omega arith, omega arith, (omega arith, omega arith, tt)))

release_token-try_acquire_example :
    let held = after_pickup defaults inputs 1 1 (start world) in
    ((try_acquire defaults 1 (smooth inputs) (start world)).0 ≡ ok true)
    × (memory.get (inputs.time 1) (bucket_key 1) held.shared.redis ≡ some 49)
    × (memory.get 5_000
          (bucket_key 1)
          (release_token defaults 1 (smooth inputs) held).1.shared.redis
        ≡ some 50)
release_token-try_acquire_example =
    release_token-try_acquire defaults inputs 1 49 1 5_000 (start world) refl (omega arith)
      (omega arith) (omega arith) (omega arith)

-- Two failures open a breaker of threshold 2; a probe fails, and a later one succeeds.
abbrev sensitive : Config
sensitive = record defaults { cb_fail_threshold = 2 }

abbrev no_circuit : Circuit
no_circuit = record { fails = 0; fails_until = 0; open_until = 0; probe_until = 0 }

no_circuit-Implements : Implements memory 1 0 empty_keys no_circuit
no_circuit-Implements = record {
  fails_read = λ t le. ground arith;
  open_read = λ t le. ground arith;
  probe_read = λ t le. ground arith;
}

abbrev breaker_calls : List (ℕ × BreakerCall)
breaker_calls =
    (0, fails_once)
    ∷ (10, checks)
    ∷ (20, fails_once)
    ∷ (30, checks)
    ∷ (60_020, checks)
    ∷ (60_021, checks)
    ∷ (60_900, reports false)
    ∷ (61_000, checks)
    ∷ (120_900, checks)
    ∷ (121_000, reports true)
    ∷ (121_001, checks)
    ∷ []

breaker_run-circuit_run_example :
    breaker_run sensitive 1 inputs breaker_calls (start world)
    ≡ map ok (circuit_run sensitive breaker_calls no_circuit)
breaker_run-circuit_run_example =
    breaker_run-circuit_run sensitive 1 inputs 0 breaker_calls (start world) no_circuit
      no_circuit-Implements (omega arith)

-- The answers of those calls.
abbrev asked_only : List (Option BreakerState) → List BreakerState
asked_only [] = []
asked_only (none ∷ answers) = asked_only answers
asked_only (some state ∷ answers) = state ∷ asked_only answers

circuit_run_answers :
    asked_only (circuit_run sensitive breaker_calls no_circuit)
    ≡ closed ∷ open_ ∷ probe ∷ open_ ∷ open_ ∷ probe ∷ closed ∷ []
unfolding circuit_run
circuit_run_answers = refl
