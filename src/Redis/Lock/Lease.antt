-- ===== src/Redis/Lock/Lease.antt =====
-- What the lock promises: a lease, held by at most one token until a deadline. The Redis commands
-- implement it.
use webhook_delivery_engine.Prelude.{
  ℕ, ◌+◌, ◌≤◌, ◌≡◌, refl, Bool, true, false, ltb, if◌then◌else◌, Option, none, some, List, [], ◌∷◌,
  arith, ==_refl, Option-cases, Bool-cases, inl, inr, ◌∙◌, ap, ==→eq,
}
use mathlib.Core.Path.{ap₂}
use webhook_delivery_engine.Config.{Config}
use webhook_delivery_engine.Redis.{Redis, lock_key}
use webhook_delivery_engine.Redis.Lock.{
  LockCall, acquires, releases, extends, holds, lock_step, lock_run,
}

-- A token and the time from which it no longer holds the lock.
abbrev pub Lease : Type 0
Lease = Option (ℕ × ℕ)

abbrev pub holder : ℕ → Lease → Option ℕ
holder t none = none
holder t (some (token, deadline)) = if ltb t deadline then some token else none

abbrev taken : Option ℕ → Bool
taken none = false
taken (some _) = true

-- A call at a time: whether it succeeds, and the lease that it leaves.
pub lease_step : ℕ → ℕ → LockCall → Lease → Bool × Lease
lease_step ttl now (acquires token) l =
    if taken (holder now l) then (false, l) else (true, some (token, now + ttl))
lease_step ttl now (releases token) l =
    if holds (holder now l) token then (true, none) else (false, l)
lease_step ttl now (extends token) l =
    if holds (holder now l) token then (true, some (token, now + ttl)) else (false, l)

pub lease_run : ℕ → List (ℕ × LockCall) → Lease → List Bool × Lease
unfolding lease_step
lease_run ttl [] l = ([], l)
lease_run ttl ((now, call) ∷ calls) l =
    let (b, l') = lease_step ttl now call l in
    let (bs, l'') = lease_run ttl calls l' in (b ∷ bs, l'')

some_of_holds : (o : Option ℕ) (token : ℕ) → holds o token ≡ true → o ≡ some token
some_of_holds none token h = cc
some_of_holds (some held) token h = ap some (==→eq held token h)

-- The times of the calls do not fall, from `now` on.
abbrev pub IsTimed : ℕ → List (ℕ × LockCall) → Type 0
IsTimed now [] = Unit
IsTimed now ((t, call) ∷ calls) = (now ≤ t) × IsTimed t calls

module _ (r : Redis) (c : Config) (delivery_id : ℕ) where
  open r use {State, get, get-set, get-del, get-expire, expire_flag, set_nx_free, set_nx_held}

  -- From `now` on the key reads as the lease says.
  abbrev pub Implements : ℕ → State → Lease → Type 0
  Implements now s l = (t : ℕ) → now ≤ t → get t (lock_key delivery_id) s ≡ holder t l

  step-Implements :
      (now : ℕ) (call : LockCall) (s : State) (l : Lease)
      → Implements now s l
      → ((lock_step r c delivery_id now call s).0 ≡ (lease_step c.lock_ttl_ms now call l).0)
        × Implements now
            (lock_step r c delivery_id now call s).1
            (lease_step c.lock_ttl_ms now call l).1
  unfolding lock_step lease_step
  step-Implements now (acquires token) s l h = elim (Option-cases (holder now l)) [
    | inl free ↦
        rw
          (
            free,
            set_nx_free now (lock_key delivery_id) token c.lock_ttl_ms s
                (h now (omega arith) ∙ free),
          )
          (refl, λ t later. rw get-set (rw ==_refl refl))
    | inr (w, held) ↦
        rw
          (
            held,
            set_nx_held now (lock_key delivery_id) token c.lock_ttl_ms s
                (h now (omega arith) ∙ held),
          )
          (refl, h)
  ]
  step-Implements now (releases token) s l h = elim (Bool-cases (holds (holder now l) token)) [
    | inl mine ↦ rw (h now (omega arith), mine) (refl, λ t later. rw get-del (rw ==_refl refl))
    | inr other ↦ rw (h now (omega arith), other) (refl, h)
  ]
  step-Implements now (extends token) s l h = elim (Bool-cases (holds (holder now l) token)) [
    | inl mine ↦
        let held : get now (lock_key delivery_id) s ≡ some token =
          h now (omega arith) ∙ some_of_holds (holder now l) token mine in
        rw (held, expire_flag, mine, ==_refl token)
          (rw held (refl, λ t later. rw get-expire (rw (==_refl delivery_id, held) refl)))
    | inr other ↦ rw (h now (omega arith), other) (refl, h)
  ]

  -- From a state that reads as a lease, the lock answers every sequence of acquires, releases and
  -- extends as that lease would, whoever calls, with whatever tokens, at times that do not fall.
  pub lock_run-lease_run :
      (now : ℕ) (calls : List (ℕ × LockCall)) (s : State) (l : Lease)
      → Implements now s l
      → IsTimed now calls
      → (lock_run r c delivery_id calls s).0 ≡ (lease_run c.lock_ttl_ms calls l).0
  unfolding lock_run lease_run
  lock_run-lease_run now [] s l h timed = refl
  lock_run-lease_run now ((t, call) ∷ calls) s l h (later, timed) =
      let (same, next) = step-Implements t call s l (λ u le. h u (omega arith)) in
      ap₂ ◌∷◌ same (lock_run-lease_run t calls _ _ next timed)
