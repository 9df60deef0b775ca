-- ===== src/Redis/Fields.antt =====
-- What a command on a key leaves for a reader of that key.
use text.Mathlib.TextPositions.{eq_refl}
use webhook_delivery_engine.Redis.{
  idem_key, bucket_key, probe_key, open_key, fails_key, lock_key, key_eq, Key, Redis,
}
use webhook_delivery_engine.Prelude.{
  inr, arith, none, ==_refl, ◌+◌, inl, ltb, refl, Option-cases, true, some, if◌then◌else◌, false,
  ◌≤◌, ◌≡◌, ℕ,
}

pub key_eq_refl : (k : Key) → key_eq k k ≡ true
key_eq_refl (lock_key a) = ==_refl a
key_eq_refl (fails_key a) = ==_refl a
key_eq_refl (open_key a) = ==_refl a
key_eq_refl (probe_key a) = ==_refl a
key_eq_refl (bucket_key a) = ==_refl a
key_eq_refl (idem_key s) = eq_refl s

module _ (r : Redis) where
  open r use {State, get, hset, expire, get-hset, get-expire}

  pub get-hset_self : (now v : ℕ) (k : Key) (s : State) → get now k (hset now k v s) ≡ some v
  get-hset_self now v k s = elim (Option-cases (get now k s)) [
    | inl e ↦ rw (get-hset now now k k v s (omega arith)) (rw (key_eq_refl k, e) refl)
    | inr (w, e) ↦ rw (get-hset now now k k v s (omega arith)) (rw (key_eq_refl k) (rw (e, e) refl))
  ]

  -- A value that is written together with its time to live.
  pub get-expire-hset :
      (t now v ttl : ℕ) (k : Key) (s : State)
      → get t k (expire now k ttl (hset now k v s)).1 ≡ (if ltb t (now + ttl) then some v else none)
  get-expire-hset t now v ttl k s = rw get-expire (rw (key_eq_refl k, get-hset_self now v k s) refl)

  -- Other keys stay as they are.
  pub get-expire-hset_other :
      (t now v ttl : ℕ) (j k : Key) (s : State)
      → now ≤ t
      → key_eq k j ≡ false
      → get t j (expire now k ttl (hset now k v s)).1 ≡ get t j s
  get-expire-hset_other t now v ttl j k s le ne =
      rw get-expire (rw ne (rw (get-hset t now j k v s le) (rw ne refl)))
