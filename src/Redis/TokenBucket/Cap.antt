-- ===== src/Redis/TokenBucket/Cap.antt =====
-- The cap holds: the grants of a window.
use webhook_delivery_engine.Prelude.{
  one_if, ℕ, zero, suc, ◌+◌, ◌*◌, ◌≤◌, ◌<◌, ◌≡◌, refl, is_some, some, or_else, List, [], ◌∷◌, arith,
  lt→ltb,
}
use webhook_delivery_engine.Redis.{Redis, bucket_key}
use webhook_delivery_engine.Redis.TokenBucket.{token_bucket, take_token}
use webhook_delivery_engine.Redis.Fields.{get-expire-hset}

-- The times do not fall, from `now` on, and end before `end`.
abbrev pub IsWithin : ℕ → ℕ → List ℕ → Type 0
IsWithin now end [] = Unit
IsWithin now end (t ∷ times) = (now ≤ t) × (t < end) × IsWithin t end times

module _ (r : Redis) (endpoint_id max_tokens ttl_seconds : ℕ) where
  open r use {State, get, hset, expire, get-hset, get-expire}

  -- How many of the calls at these times are granted a slot.
  unfoldable pub grants : List ℕ → State → ℕ
  grants [] s = 0
  grants (t ∷ times) s =
      let (reply, s') = token_bucket r t (bucket_key endpoint_id) max_tokens ttl_seconds s in
      one_if (is_some reply) + grants times s'

  -- The bucket reads as `n` slots from `now` until `end`.
  abbrev pub HasSlots : ℕ → ℕ → ℕ → State → Type 0
  HasSlots n now end s =
      (t : ℕ) → now ≤ t → t < end → or_else (get t (bucket_key endpoint_id) s) max_tokens ≡ n

  -- A token that was taken leaves the bucket with the others for the time to live.
  pub taken-get :
      (n now t : ℕ) (s : State)
      → t < now + ttl_seconds * 1000
      → get t
          (bucket_key endpoint_id)
          (take_token r now (bucket_key endpoint_id) ttl_seconds max_tokens (suc n) s).1
        ≡ some n
  unfolding take_token
  taken-get n now t s before =
      rw (get-expire-hset r t now n (ttl_seconds * 1000) (bucket_key endpoint_id) s)
        (rw (lt→ltb t (now + ttl_seconds * 1000) before) refl)

  taken-HasSlots :
      (n now end : ℕ) (s : State)
      → end ≤ now + ttl_seconds * 1000
      → HasSlots n now end
          (take_token r now (bucket_key endpoint_id) ttl_seconds max_tokens (suc n) s).1
  taken-HasSlots n now end s short t later before = rw (taken-get n now t s (omega arith)) refl

  -- Within one time to live, with no release in between, no more calls are granted a slot than the
  -- bucket had, which is the maximum where the key is missing.
  pub grants-bounded :
      (n now end : ℕ) (times : List ℕ) (s : State)
      → HasSlots n now end s
      → end ≤ now + ttl_seconds * 1000
      → IsWithin now end times
      → grants times s ≤ n
  unfolding grants token_bucket take_token
  grants-bounded n now end [] s slots short within = omega arith
  grants-bounded zero now end (t ∷ times) s slots short (later, before, within) =
      rw (slots t later before) (
        omega (
          arith,
          grants-bounded zero t end times s (λ u from until. slots u (omega arith) until)
              (omega arith) within,
        ))
  grants-bounded (suc n) now end (t ∷ times) s slots short (later, before, within) =
      rw (slots t later before) (
        omega (
          arith,
          grants-bounded n t end times _ (taken-HasSlots n t end s (omega arith)) (omega arith)
              within,
        ))
