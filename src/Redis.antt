-- ===== src/Redis.antt =====
-- Redis as the code uses it: the keys that the code builds, and the commands as an interface with
-- their documented effect. Times are milliseconds; values are the integers that the code stores (a
-- lock token and an event id stand as the numbers that they spell).
pub mod Lock
pub mod Breaker
pub mod TokenBucket
pub mod Scripts
pub mod Fields
use mathlib.Core.Option
use webhook_delivery_engine.Prelude.{
  ℕ, ◌+◌, ◌≤◌, ◌≡◌, Bool, true, false, ◌==◌, ltb, if◌then◌else◌, Option, none, some, or_else,
  String, str_eq,
}

-- `wh:lock:{id}`, `wh:cb:{id}:fails`, `wh:cb:{id}:open`, `wh:cb:{id}:probe`, `wh:rl:{id}` with the
-- uuid's number, and `wh:idem:` with the text behind it.
pub data Key : Type 0 where
  lock_key fails_key open_key probe_key bucket_key : ℕ → Key
  idem_key : String → Key

abbrev pub key_eq : Key → Key → Bool
key_eq (lock_key a) (lock_key b) = a == b
key_eq (fails_key a) (fails_key b) = a == b
key_eq (open_key a) (open_key b) = a == b
key_eq (probe_key a) (probe_key b) = a == b
key_eq (bucket_key a) (bucket_key b) = a == b
key_eq (idem_key s) (idem_key t) = str_eq s t
key_eq _ _ = false

-- `get t k s` is the value of `k` at time `t` if nothing but time happens to `s`.
pub record Redis : Type 1 where
  pub State : Type 0
  -- GET, HGET of the field `tokens`; EXISTS is whether there is a value.
  pub get : ℕ → Key → State → Option ℕ
  -- SET k v PX ttl (or EX, in seconds).
  pub set : ℕ → Key → ℕ → ℕ → State → State
  -- SET k v PX ttl NX: whether it was set.
  pub set_nx : ℕ → Key → ℕ → ℕ → State → Bool × State
  -- INCR and HINCRBY by one: the new value.
  pub incr : ℕ → Key → State → ℕ × State
  -- HSET of the field `tokens`: a key that lives keeps its time to live.
  pub hset : ℕ → Key → ℕ → State → State
  -- PEXPIRE k ttl (or EXPIRE): whether there was a key.
  pub expire : ℕ → Key → ℕ → State → Bool × State
  pub del : Key → State → State
  pub get-set :
      (t now : ℕ) (j k : Key) (v ttl : ℕ) (s : State)
      → get t j (set now k v ttl s)
        ≡ (if key_eq k j then (if ltb t (now + ttl) then some v else none) else get t j s)
  pub set_nx_free :
      (now : ℕ) (k : Key) (v ttl : ℕ) (s : State)
      → get now k s ≡ none
      → set_nx now k v ttl s ≡ (true, set now k v ttl s)
  pub set_nx_held :
      (now : ℕ) (k : Key) (v ttl : ℕ) (s : State) {w : ℕ}
      → get now k s ≡ some w
      → set_nx now k v ttl s ≡ (false, s)
  pub get-del :
      (t : ℕ) (j k : Key) (s : State) → get t j (del k s) ≡ (if key_eq k j then none else get t j s)
  pub incr_lem :
      (now : ℕ) (k : Key) (s : State)
      → incr now k s ≡ (or_else (get now k s) 0 + 1, hset now k (or_else (get now k s) 0 + 1) s)
  pub get-hset :
      (t now : ℕ) (j k : Key) (v : ℕ) (s : State)
      → now ≤ t
      → get t j (hset now k v s) ≡ (
          if key_eq k j
          then elim (get now k s) [ none ↦ some v | some _ ↦ Option.map (λ _. v) (get t k s) ]
          else get t j s)
  pub expire_flag :
      (now : ℕ) (k : Key) (ttl : ℕ) (s : State)
      → (expire now k ttl s).0 ≡ elim (get now k s) [ none ↦ false | some _ ↦ true ]
  pub get-expire :
      (t now : ℕ) (j k : Key) (ttl : ℕ) (s : State)
      → get t j (expire now k ttl s).1 ≡ (
          if key_eq k j
          then elim (get now k s) [
            | none ↦ get t j s
            | some v ↦ if ltb t (now + ttl) then some v else none
          ]
          else get t j s)
  -- What has expired does not come back.
  pub get_later :
      (t now : ℕ) (k : Key) (s : State) → now ≤ t → get now k s ≡ none → get t k s ≡ none
