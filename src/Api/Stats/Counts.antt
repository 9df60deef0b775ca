-- ===== src/Api/Stats/Counts.antt =====
-- The counts by status.
use webhook_delivery_engine.Db.{Db, Status, pending, delivering, delivered, failed, dlq}
use webhook_delivery_engine.Prelude.{
  ap, ◌∙◌, sym, inr, subst, inl, refl, Bool-cases, arith, true, length, All, false, or_else, ◌≡◌,
  [], some, ◌+◌, if◌then◌else◌, none, ◌∷◌, Option, List, ℕ,
}
use webhook_delivery_engine.Db.{status_eq, Delivery, Status}
use webhook_delivery_engine.Api.Stats.{
  zero_counts, set_count, group_counts, db_stats, read_counts, add_to_group, StatusCounts,
}

abbrev pub get_count : Status → StatusCounts → ℕ
get_count pending c = c.pending_count
get_count delivering c = c.delivering_count
get_count delivered c = c.delivered_count
get_count failed c = c.failed_count
get_count dlq c = c.dlq_count

unfoldable pub count_status : Status → List Delivery → ℕ
count_status s [] = 0
count_status s (d ∷ ds) = let n = count_status s ds in if status_eq d.status s then n + 1 else n

group_of : Status → List (Status × ℕ) → Option ℕ
group_of s [] = none
group_of s ((t, n) ∷ groups) =
    let rest = group_of s groups in if status_eq t s then some n else rest

status_eq-eq : (s t : Status) → status_eq s t ≡ true → s ≡ t
status_eq-eq s t h = ground arith

get-set_count :
    (s t : Status) (n : ℕ) (c : StatusCounts)
    → get_count s (set_count t n c) ≡ (if status_eq t s then n else get_count s c)
get-set_count s t n c = ground arith

-- Every status has one group.
abbrev IsOther : Status → Status × ℕ → Type 0
IsOther s g = status_eq g.0 s ≡ false

abbrev IsGrouped : List (Status × ℕ) → Type 0
IsGrouped [] = Unit
IsGrouped ((t, n) ∷ groups) = All (IsOther t) groups × IsGrouped groups

add_to_group-All :
    (s t : Status) (groups : List (Status × ℕ))
    → status_eq t s ≡ false
    → All (IsOther s) groups
    → All (IsOther s) (add_to_group t groups)
add_to_group-All s t [] h hs = (h, tt)
add_to_group-All s t ((u, n) ∷ groups) h hs = elim (Bool-cases (status_eq u t)) [
  | inl e ↦ rw e hs
  | inr e ↦ rw e (hs.0, add_to_group-All s t groups h hs.1)
]

status_eq_sym : (s t : Status) → status_eq s t ≡ status_eq t s
status_eq_sym s t = ground arith

add_to_group-IsGrouped :
    (t : Status) (groups : List (Status × ℕ)) → IsGrouped groups → IsGrouped (add_to_group t groups)
add_to_group-IsGrouped t [] h = (tt, tt)
add_to_group-IsGrouped t ((u, n) ∷ groups) h = elim (Bool-cases (status_eq u t)) [
  | inl e ↦ rw e h
  | inr e ↦ rw e (
    add_to_group-All u t groups (sym (status_eq_sym u t) ∙ e) h.0,
    add_to_group-IsGrouped t groups h.1,
  )
]

group_of-none :
    (s : Status) (groups : List (Status × ℕ)) → All (IsOther s) groups → group_of s groups ≡ none
unfolding group_of
group_of-none s [] h = refl
group_of-none s ((t, n) ∷ groups) h = rw h.0 (group_of-none s groups h.1)

group_of-add_to_group :
    (s t : Status) (groups : List (Status × ℕ))
    → group_of s (add_to_group t groups)
      ≡ (if status_eq t s then some (or_else (group_of s groups) 0 + 1) else group_of s groups)
unfolding group_of
group_of-add_to_group s t [] = refl
group_of-add_to_group s t ((u, n) ∷ groups) = elim (Bool-cases (status_eq u t)) [
  | inl e ↦
      let same = ap (λ v. status_eq v s) (sym (status_eq-eq u t e)) in
      elim (Bool-cases (status_eq u s)) [
        | inl f ↦ rw (e, same, f) refl
        | inr f ↦ rw (e, same, f) refl
      ]
  | inr e ↦ elim (Bool-cases (status_eq u s)) [
    | inl f ↦
        let other = ap (status_eq t) (sym (status_eq-eq u s f)) ∙ status_eq_sym t u ∙ e in
        rw (e, f, other) refl
    | inr f ↦ rw (e, f) (group_of-add_to_group s t groups)
  ]
]

get-read_counts :
    (s : Status) (groups : List (Status × ℕ)) (c : StatusCounts)
    → IsGrouped groups
    → get_count s (read_counts groups c) ≡ or_else (group_of s groups) (get_count s c)
unfolding read_counts group_of
get-read_counts s [] c h = refl
get-read_counts s ((t, n) ∷ groups) c h = elim (Bool-cases (status_eq t s)) [
  | inl e ↦
      rw
        (
          get-read_counts s groups (set_count t n c) h.1,
          group_of-none s groups (subst (λ u. All (IsOther u) groups) (status_eq-eq t s e) h.0),
          get-set_count s t n c,
          e,
        )
        refl
  | inr e ↦ rw (get-read_counts s groups (set_count t n c) h.1, get-set_count s t n c, e) refl
]

group_counts-IsGrouped : (ds : List Delivery) → IsGrouped (group_counts ds)
unfolding group_counts
group_counts-IsGrouped [] = tt
group_counts-IsGrouped (d ∷ ds) = add_to_group-IsGrouped d.status _ (group_counts-IsGrouped ds)

group_of-add_to_group-or :
    (s t : Status) (groups : List (Status × ℕ))
    → or_else (group_of s (add_to_group t groups)) 0
      ≡ (if status_eq t s then or_else (group_of s groups) 0 + 1 else or_else (group_of s groups) 0)
group_of-add_to_group-or s t groups = elim (Bool-cases (status_eq t s)) [
  | inl e ↦ rw (group_of-add_to_group s t groups, e) refl
  | inr e ↦ rw (group_of-add_to_group s t groups, e) refl
]

group_of-group_counts :
    (s : Status) (ds : List Delivery) → or_else (group_of s (group_counts ds)) 0 ≡ count_status s ds
unfolding group_of group_counts count_status
group_of-group_counts s [] = refl
group_of-group_counts s (d ∷ ds) =
    group_of-add_to_group-or s d.status (group_counts ds)
    ∙ ap (λ n. if status_eq d.status s then n + 1 else n) (group_of-group_counts s ds)

get-zero_counts : (s : Status) → get_count s zero_counts ≡ 0
get-zero_counts s = ground arith

total :
    (ds : List Delivery)
    → count_status pending ds
        + count_status delivering ds
        + count_status delivered ds
        + count_status failed ds
        + count_status dlq ds
      ≡ length ds
unfolding count_status
total [] = refl
total (d ∷ ds) = ground (arith, total ds)

-- The counts of GET /v1/stats are the numbers of the deliveries in each status, 0 where there is none, and they
-- add up to the number of deliveries.
pub db_stats-counts :
    (now : ℕ) (db : Db)
    → let c = (db_stats now db).counts in
      ((s : Status) → get_count s c ≡ count_status s db.deliveries)
      × (c.pending_count + c.delivering_count + c.delivered_count + c.failed_count + c.dlq_count
          ≡ length db.deliveries)
unfolding db_stats
db_stats-counts now db =
    let each = λ (s : Status).
      get-read_counts s (group_counts db.deliveries) zero_counts
        (group_counts-IsGrouped db.deliveries)
      ∙ ap (or_else (group_of s (group_counts db.deliveries))) (get-zero_counts s)
      ∙ group_of-group_counts s db.deliveries in
    (
      each,
      rw (each pending, each delivering, each delivered, each failed, each dlq)
          (total db.deliveries),
    )
