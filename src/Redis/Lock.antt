-- ===== src/Redis/Lock.antt =====
-- redis/lock.ts with redis/scripts/release_lock.lua and redis/scripts/extend_lock.lua: the lock of
-- a delivery. Each operation is one atomic command, so it is a function of the Redis state at the
-- time of the command. The random token of `acquire` is an argument.
pub mod Lease
pub mod Exclusion
use webhook_delivery_engine.Prelude.{
  ℕ, ◌≡◌, Bool, true, false, ◌==◌, if◌then◌else◌, Option, none, some, List, [], ◌∷◌,
}
use webhook_delivery_engine.Config.{Config}
use webhook_delivery_engine.Redis.{Redis, Key, lock_key}

pub record AcquireResult : Type 0 where
  pub acquired : Bool
  pub token : ℕ

-- `GET k == ARGV[1]`; a missing key is `false` in Lua, which equals no text.
abbrev pub holds : Option ℕ → ℕ → Bool
holds none token = false
holds (some held) token = held == token

-- The scripts' integer replies.
abbrev pub script_reply : Bool → ℕ
script_reply true = 1
script_reply false = 0

module _ (r : Redis) where
  open r use {State, get, set_nx, expire, del}

  unfoldable pub release_lock : ℕ → Key → ℕ → State → ℕ × State
  release_lock now k token s = if holds (get now k s) token then (1, del k s) else (0, s)

  unfoldable pub extend_lock : ℕ → Key → ℕ → ℕ → State → ℕ × State
  extend_lock now k token ttl s =
      if holds (get now k s) token
      then (script_reply (expire now k ttl s).0, (expire now k ttl s).1)
      else (0, s)

  unfoldable pub acquire : Config → ℕ → ℕ → ℕ → State → AcquireResult × State
  acquire c now delivery_id token s =
      let (set, s') = set_nx now (lock_key delivery_id) token c.lock_ttl_ms s in
      (record { acquired = set; token = token }, s')

  unfoldable pub release : ℕ → ℕ → ℕ → State → Bool × State
  unfolding release_lock
  release now delivery_id token s =
      let (n, s') = release_lock now (lock_key delivery_id) token s in (n == 1, s')

  unfoldable pub extend : Config → ℕ → ℕ → ℕ → State → Bool × State
  unfolding extend_lock
  extend c now delivery_id token s =
      let (n, s') = extend_lock now (lock_key delivery_id) token c.lock_ttl_ms s in (n == 1, s')

-- A call of one of the three, by whoever presents the token.
pub data LockCall : Type 0 where
  acquires releases extends : ℕ → LockCall

abbrev pub caller : LockCall → ℕ
caller (acquires token) = token
caller (releases token) = token
caller (extends token) = token

module _ (r : Redis) (c : Config) (delivery_id : ℕ) where
  open r use {State}

  unfoldable pub lock_step : ℕ → LockCall → State → Bool × State
  unfolding acquire release extend
  lock_step now (acquires token) s =
      let (a, s') = acquire r c now delivery_id token s in (a.acquired, s')
  lock_step now (releases token) s = release r now delivery_id token s
  lock_step now (extends token) s = extend r c now delivery_id token s

  -- The results of calls at the given times.
  unfoldable pub lock_run : List (ℕ × LockCall) → State → List Bool × State
  unfolding lock_step
  lock_run [] s = ([], s)
  lock_run ((now, call) ∷ calls) s =
      let (b, s') = lock_step now call s in let (bs, s'') = lock_run calls s' in (b ∷ bs, s'')
