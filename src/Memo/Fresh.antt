-- ===== src/Memo/Fresh.antt =====
-- What a caller of a memo can rely on. A history has its newest event first.
use webhook_delivery_engine.Prelude.{
  subst, ltb, Option-cases, inr, inl, Bool-cases, none, ap, ◌∙◌, Option, ◌<◌, sym, refl, ◌⊎◌, [],
  if◌then◌else◌, arith, some, ◌+◌, ◌∷◌, false, ◌≡◌, true, List, Bool, ℕ,
}
use webhook_delivery_engine.Memo.{
  or_pending, shares, rejected, resolved, called, new_memo, starts, hit, Cached, Memo, MemoEvent,
  answer_call, memo_step, MemoAnswer,
}

unfoldable pub memo_after : {A : Type 0} → ℕ → List (MemoEvent A) → Memo A
memo_after ttl_ms [] = new_memo
memo_after ttl_ms (e ∷ past) = memo_step ttl_ms e (memo_after ttl_ms past)

-- Whether the function had resolved with this value at that time.
abbrev pub WasResolved : {A : Type 0} → ℕ → A → List (MemoEvent A) → Type 0
WasResolved t v [] = ⊥
WasResolved t v (called now ∷ past) = WasResolved t v past
WasResolved t v (resolved u w ∷ past) = ((t ≡ u) × (v ≡ w)) ⊎ WasResolved t v past
WasResolved t v (rejected ∷ past) = WasResolved t v past

abbrev pub is_start : {A : Type 0} → MemoAnswer A → Bool
is_start starts = true
is_start (hit v) = false
is_start shares = false

abbrev pub in_flight : Bool → ℕ
in_flight true = 1
in_flight false = 0

some-injective : {A : Type 0} (x y : A) → some x ≡ some y → x ≡ y
some-injective x y h = ap (or_else_of x) h
  where
    or_else_of : {A : Type 0} → A → Option A → A
    or_else_of x none = x
    or_else_of x (some y) = y

hit-injective : {A : Type 0} (x y : A) → hit x ≡ hit y → x ≡ y
hit-injective x y h = ap (value_of x) h
  where
    value_of : {A : Type 0} → A → MemoAnswer A → A
    value_of x (hit y) = y
    value_of x shares = x
    value_of x starts = x

module _ {A : Type 0} (ttl_ms : ℕ) where
  -- The calls of the function so far, and those of them that have settled.
  unfoldable pub started_count : List (MemoEvent A) → ℕ
  unfolding memo_after
  started_count [] = 0
  started_count (called now ∷ past) =
      let n = started_count past in
      if is_start (answer_call now (memo_after ttl_ms past)) then n + 1 else n
  started_count (resolved now v ∷ past) = started_count past
  started_count (rejected ∷ past) = started_count past

  unfoldable pub settled_count : List (MemoEvent A) → ℕ
  unfolding memo_after
  settled_count [] = 0
  settled_count (called now ∷ past) = settled_count past
  settled_count (resolved now v ∷ past) =
      let n = settled_count past in if (memo_after ttl_ms past).pending then n + 1 else n
  settled_count (rejected ∷ past) =
      let n = settled_count past in if (memo_after ttl_ms past).pending then n + 1 else n

  -- Whatever is called and settles in whatever order, of the calls of the function at most one has not
  -- settled_count: the pending one.
  pub started_count-settled_count :
      (past : List (MemoEvent A))
      → started_count past ≡ settled_count past + in_flight (memo_after ttl_ms past).pending
  unfolding started_count settled_count memo_after memo_step answer_call
  started_count-settled_count [] = refl
  started_count-settled_count (called now ∷ past) = ground (arith, started_count-settled_count past)
  started_count-settled_count (resolved now v ∷ past) =
      ground (arith, started_count-settled_count past)
  started_count-settled_count (rejected ∷ past) = ground (arith, started_count-settled_count past)

  call-cached :
      (now : ℕ) (past : List (MemoEvent A))
      → (memo_after ttl_ms (called now ∷ past)).cached ≡ (memo_after ttl_ms past).cached
  unfolding memo_after memo_step answer_call
  call-cached now past = ground arith

  reject-cached :
      (past : List (MemoEvent A))
      → (memo_after ttl_ms (rejected ∷ past)).cached ≡ (memo_after ttl_ms past).cached
  unfolding memo_after memo_step
  reject-cached past = ground arith

  -- What is cached was the value of the function, and expires one time to live later.
  cached-WasResolved :
      (past : List (MemoEvent A)) (c : Cached A)
      → (memo_after ttl_ms past).cached ≡ some c
      → (t : ℕ) × WasResolved t c.value past × (c.expires_at ≡ t + ttl_ms)
  unfolding memo_after memo_step
  cached-WasResolved [] c h = ground arith
  cached-WasResolved (called now ∷ past) c h =
      cached-WasResolved past c (sym (call-cached now past) ∙ h)
  cached-WasResolved (rejected ∷ past) c h =
      cached-WasResolved past c (sym (reject-cached past) ∙ h)
  cached-WasResolved (resolved now v ∷ past) c h =
      elim (Bool-cases (memo_after ttl_ms past).pending) [
        | inl e ↦
            let same = some-injective _ c (rw e at h) in
            (now, inl (refl, sym (ap (λ x. x.value) same)), sym (ap (λ x. x.expires_at) same))
        | inr e ↦ let was = cached-WasResolved past c (rw e at h) in (was.0, inr was.1, was.2)
      ]

  -- Whatever was called and settled before, in whatever order: a caller gets a cached value only if the
  -- function had resolved with it less than the time to live ago.
  pub answer_call-fresh :
      (past : List (MemoEvent A)) (now : ℕ) (v : A)
      → answer_call now (memo_after ttl_ms past) ≡ hit v
      → (t : ℕ) × WasResolved t v past × (now < t + ttl_ms)
  unfolding answer_call
  answer_call-fresh past now v h = elim (Option-cases (memo_after ttl_ms past).cached) [
    | inl e ↦ absurd (not_hit (memo_after ttl_ms past).pending (rw e at h))
    | inr (c, e) ↦ elim (Bool-cases (ltb now c.expires_at)) [
      | inr old ↦ absurd (not_hit (memo_after ttl_ms past).pending (rw (e, old) at h))
      | inl young ↦
          let was = cached-WasResolved past c e in
          (
            was.0,
            subst (λ w. WasResolved was.0 w past) (hit-injective c.value v (rw (e, young) at h))
                was.1,
            ground (arith, was.2),
          )
    ]
  ]
    where
      not_hit : (pending : Bool) → or_pending none pending ≡ hit v → ⊥
      not_hit true h = ground arith
      not_hit false h = ground arith
