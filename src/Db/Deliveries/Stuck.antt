-- ===== src/Db/Deliveries/Stuck.antt =====
-- Which rows the reconciler picks.
use webhook_delivery_engine.Prelude.{
  subst, lt→ltb, ltb→lt, ◌*◌, zero, ◌+◌, suc, Bool-cases, none, ◌↔◌, ==_refl, not, ◌⊎◌, true,
  where_rows, ◌<◌, some, ◌&&◌, ap, Any, map, take, ℕ, ◌≡◌, refl, Bool, false, ◌==◌, ◌||◌, Option,
  List, [], ◌∷◌, arith, inl, inr, length,
}
use webhook_delivery_engine.Db.{
  dlq, delivered, delivering, pending, failed, status_eq, Status, Delivery,
}
use webhook_delivery_engine.Db.Deliveries.{is_overdue, is_stuck}

unfoldable pub is_among : ℕ → List ℕ → Bool
is_among id [] = false
is_among id (j ∷ ids) = let rest = is_among id ids in j == id || rest

-- Which rows are stuck: PENDING, or FAILED and overdue, and not touched within the grace.
abbrev IsDue : ℕ → Option ℕ → Type 0
IsDue now none = ⊥
IsDue now (some t) = t < now

abbrev pub IsStuck : ℕ → ℕ → Delivery → Type 0
IsStuck grace_seconds now d =
    ((d.status ≡ pending) ⊎ ((d.status ≡ failed) × IsDue now d.next_attempt_at))
    × (d.updated_at + grace_seconds * 1000 < now)

is_overdue-IsDue : (now : ℕ) (due : Option ℕ) → (is_overdue now due ≡ true) ↔ IsDue now due
is_overdue-IsDue now none = ((λ e. absurd cc), λ h. absurd h)
is_overdue-IsDue now (some t) = ground arith

status-stuck :
    (now : ℕ) (status : Status) (due : Option ℕ)
    → ((status_eq status pending || (status_eq status failed && is_overdue now due)) ≡ true)
      ↔ ((status ≡ pending) ⊎ ((status ≡ failed) × IsDue now due))
status-stuck now pending due = ((λ e. inl refl), λ h. refl)
status-stuck now failed due = (
  (λ e. inr (refl, (is_overdue-IsDue now due).0 e)),
  λ h. elim h [ inl e ↦ absurd cc | inr (e, late) ↦ (is_overdue-IsDue now due).1 late ],
)
status-stuck now delivering due =
    ((λ e. absurd cc), λ h. elim h [ inl e ↦ absurd cc | inr (e, late) ↦ absurd cc ])
status-stuck now delivered due =
    ((λ e. absurd cc), λ h. elim h [ inl e ↦ absurd cc | inr (e, late) ↦ absurd cc ])
status-stuck now dlq due =
    ((λ e. absurd cc), λ h. elim h [ inl e ↦ absurd cc | inr (e, late) ↦ absurd cc ])

-- The rows that a sweep may pick under an id.
abbrev pub MayClaim : ℕ → ℕ → (ℕ → Bool) → ℕ → Delivery → Type 0
MayClaim grace_seconds now locked id d =
    (d.id ≡ id) × IsStuck grace_seconds now d × (locked id ≡ false)

both-true : (x y : Bool) → ((x && y) ≡ true) ↔ ((x ≡ true) × (y ≡ true))
both-true x y = ground arith

pub claimable :
    (grace_seconds now : ℕ) (locked : ℕ → Bool) (id : ℕ) (d : Delivery)
    → ((d.id ≡ id) × ((is_stuck grace_seconds now d && not (locked d.id)) ≡ true))
      ↔ MayClaim grace_seconds now locked id d
unfolding is_stuck
claimable grace_seconds now locked id d = (
  λ (same, chosen).
      let (is_stuck_d, free) = (both-true _ _).0 chosen in
      let (status, old) = (both-true _ _).0 is_stuck_d in
      (
        same,
        ((status-stuck now d.status d.next_attempt_at).0 status, ltb→lt _ _ old),
        subst (λ j. locked j ≡ false) same (ground (arith, free)),
      ),
  λ (same, (status, old), free). (
    same,
    (both-true _ _).1 (
      (both-true _ _).1 ((status-stuck now d.status d.next_attempt_at).1 status, lt→ltb _ _ old),
      rw same (rw free refl),
    ),
  ),
)

module _ (p : Delivery → Bool) (id : ℕ) where
  pub among-rows :
      (ds : List Delivery)
      → is_among id (map (λ d. d.id) (where_rows p ds)) ≡ true
      → Any (λ d. (d.id ≡ id) × (p d ≡ true)) ds
  unfolding is_among
  among-rows [] e = absurd cc
  among-rows (d ∷ ds) e = elim (Bool-cases (p d)) [
    | inr passed ↦ inr (among-rows ds (rw passed at e))
    | inl chosen ↦ elim (Bool-cases (d.id == id)) [
      | inl same ↦ inl (ground arith, chosen)
      | inr other ↦ inr (among-rows ds (rw other at (rw chosen at e)))
    ]
  ]

  pub rows-among :
      (ds : List Delivery)
      → Any (λ d. (d.id ≡ id) × (p d ≡ true)) ds
      → is_among id (map (λ d. d.id) (where_rows p ds)) ≡ true
  unfolding is_among
  rows-among [] h = absurd h
  rows-among (d ∷ ds) (inl (same, chosen)) = rw chosen (rw (same, ==_refl id) refl)
  rows-among (d ∷ ds) (inr h) = elim (Bool-cases (p d)) [
    | inr passed ↦ rw passed (rows-among ds h)
    | inl chosen ↦ rw chosen (ground (arith, rows-among ds h))
  ]

pub is_among-take :
    (id n : ℕ) (ids : List ℕ) → is_among id (take n ids) ≡ true → is_among id ids ≡ true
unfolding is_among
is_among-take id zero ids e = absurd cc
is_among-take id (suc n) [] e = e
is_among-take id (suc n) (j ∷ ids) e = ground (arith, is_among-take id n ids)

pub take-short {ℓ} : {A : Type ℓ} (n : ℕ) (xs : List A) → length (take n xs) < n → take n xs ≡ xs
take-short zero xs h = absurd (omega arith)
take-short (suc n) [] h = refl
take-short (suc n) (x ∷ xs) h = ap (λ l. x ∷ l) (take-short n xs (omega arith))
