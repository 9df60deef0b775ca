-- ===== src/Redis/Lock/Exclusion.antt =====
-- Nobody takes a lock that is held: what other tokens can do within the time to live.
use webhook_delivery_engine.Prelude.{
  ℕ, ◌+◌, ◌<◌, ◌≡◌, ◌≢◌, refl, Bool, true, false, none, some, List, [], ◌∷◌, ==_refl, ne→==, lt→ltb,
  map,
}
use webhook_delivery_engine.Config.{Config}
use webhook_delivery_engine.Redis.{Redis, lock_key}
use webhook_delivery_engine.Redis.Lock.{
  LockCall, acquires, releases, extends, caller, acquire, lock_step, lock_run,
}

-- Every call comes before `deadline`, from another token.
abbrev pub IsForeign : ℕ → ℕ → List (ℕ × LockCall) → Type 0
IsForeign token deadline [] = Unit
IsForeign token deadline ((t, call) ∷ calls) =
    ((t < deadline) × (token ≢ caller call)) × IsForeign token deadline calls

abbrev pub refusals : List (ℕ × LockCall) → List Bool
refusals = map λ _. false

module _ (r : Redis) (c : Config) (delivery_id : ℕ) where
  open r use {State, get, get-set, set_nx_free, set_nx_held}

  abbrev HeldUntil : ℕ → ℕ → State → Type 0
  HeldUntil token deadline s = (t : ℕ) → t < deadline → get t (lock_key delivery_id) s ≡ some token

  foreign_step :
      (token deadline now : ℕ) (call : LockCall) (s : State)
      → HeldUntil token deadline s
      → now < deadline
      → token ≢ caller call
      → lock_step r c delivery_id now call s ≡ (false, s)
  unfolding lock_step
  foreign_step token deadline now (acquires other) s held early ne =
      rw (set_nx_held now (lock_key delivery_id) other c.lock_ttl_ms s (held now early)) refl
  foreign_step token deadline now (releases other) s held early ne =
      rw (held now early, ne→== token other ne) refl
  foreign_step token deadline now (extends other) s held early ne =
      rw (held now early, ne→== token other ne) refl

  foreign_run :
      (token deadline : ℕ) (calls : List (ℕ × LockCall)) (s : State)
      → HeldUntil token deadline s
      → IsForeign token deadline calls
      → lock_run r c delivery_id calls s ≡ (refusals calls, s)
  unfolding lock_run
  foreign_run token deadline [] s held foreign = refl
  foreign_run token deadline ((t, call) ∷ calls) s held ((early, ne), foreign) =
      rw (foreign_step token deadline t call s held early ne)
        (rw (foreign_run token deadline calls s held foreign) refl)

  -- Once a token has acquired a free lock, every acquire, release and extend by other tokens within
  -- the time to live is refused, and the lock still reads as that token's.
  pub acquire_exclusive :
      (t0 t token : ℕ) (calls : List (ℕ × LockCall)) (s : State)
      → get t0 (lock_key delivery_id) s ≡ none
      → t < t0 + c.lock_ttl_ms
      → IsForeign token (t0 + c.lock_ttl_ms) calls
      → let (a, held) = acquire r c t0 delivery_id token s in
        (a.acquired ≡ true)
        × ((lock_run r c delivery_id calls held).0 ≡ refusals calls)
        × (get t (lock_key delivery_id) (lock_run r c delivery_id calls held).1 ≡ some token)
  unfolding acquire
  acquire_exclusive t0 t token calls s free early foreign =
      rw (set_nx_free t0 (lock_key delivery_id) token c.lock_ttl_ms s free) (
        rw (foreign_run token (t0 + c.lock_ttl_ms) calls _ held foreign) (refl, refl, held t early))
    where
      held :
          (t : ℕ)
          → t < t0 + c.lock_ttl_ms
          → get t (lock_key delivery_id) (r.set t0 (lock_key delivery_id) token c.lock_ttl_ms s)
            ≡ some token
      held t early = rw get-set (rw (==_refl delivery_id, lt→ltb _ _ early) refl)
