-- ===== src/ExplainCheck/Scans.antt =====
-- The check finds each scan of a plan.
use webhook_delivery_engine.Prelude.{
  inl, inr, Bool-cases, none, ◌↔◌, ◌⊎◌, Option, some, refl, [], ◌∷◌, false, arith, ◌&&◌, true, ◌≡◌,
  ◌++◌, str_eq, Bool, String, List,
}
use webhook_delivery_engine.ExplainCheck.{
  no_plans, find_in_plans, scanned, find_seq_scans, check_plans, plan_and, plan_node,
  is_alert_table, is_empty, Plans, PlanNode,
}

-- A plan has a scan of a watched table: at its root, or in one of the plans below it.
mutual
  pub data HasScan : PlanNode → Type 0 where
    at_root :
        {node_type relation : String} {plans : Plans}
        → str_eq node_type "Seq Scan" ≡ true
        → str_eq relation "" ≡ false
        → is_alert_table relation ≡ true
        → HasScan (plan_node node_type (some relation) plans)
    inside :
        {node_type : String} {relation : Option String} {plans : Plans}
        → AnyHasScan plans
        → HasScan (plan_node node_type relation plans)

  pub data AnyHasScan : Plans → Type 0 where
    here : {node : PlanNode} {plans : Plans} → HasScan node → AnyHasScan (plan_and node plans)
    later : {node : PlanNode} {plans : Plans} → AnyHasScan plans → AnyHasScan (plan_and node plans)

clash : (b : Bool) → b ≡ true → b ≡ false → ⊥
clash b h k = ground arith

is_empty-append : (xs ys : List String) → is_empty (xs ++ ys) ≡ (is_empty xs && is_empty ys)
is_empty-append [] ys = ground arith
is_empty-append (x ∷ xs) ys = refl

scanned-filled :
    (node_type relation : String)
    → str_eq node_type "Seq Scan" ≡ true
    → str_eq relation "" ≡ false
    → is_alert_table relation ≡ true
    → is_empty (scanned node_type (some relation)) ≡ false
scanned-filled node_type relation scan filled watched = rw (scan, filled, watched) refl

-- Nothing that was found is lost.
mutual
  unfolding find_seq_scans find_in_plans

  keeps_found :
      (node : PlanNode) (found : List String)
      → is_empty found ≡ false
      → is_empty (find_seq_scans node found) ≡ false
  keeps_found (plan_node node_type relation plans) found h =
      keep_in_plans plans _ (rw (is_empty-append found (scanned node_type relation), h) refl)

  keep_in_plans :
      (plans : Plans) (found : List String)
      → is_empty found ≡ false
      → is_empty (find_in_plans plans found) ≡ false
  keep_in_plans no_plans found h = h
  keep_in_plans (plan_and node plans) found h = keep_in_plans plans _ (keeps_found node found h)

-- A scan is found.
mutual
  unfolding find_seq_scans find_in_plans

  finds :
      (node : PlanNode)
      → HasScan node
      → (found : List String) → is_empty (find_seq_scans node found) ≡ false
  finds (plan_node node_type (some relation) plans) (at_root scan filled watched) found =
      keep_in_plans plans _ (
        rw
          (
            is_empty-append found (scanned node_type (some relation)),
            scanned-filled node_type relation scan filled watched,
          )
          (ground arith))
  finds (plan_node node_type relation plans) (inside any) found = finds_in plans any _

  finds_in :
      (plans : Plans)
      → AnyHasScan plans
      → (found : List String) → is_empty (find_in_plans plans found) ≡ false
  finds_in no_plans any found = elim any [ ]
  finds_in (plan_and node plans) (here has) found = keep_in_plans plans _ (finds node has found)
  finds_in (plan_and node plans) (later any) found = finds_in plans any _

root_scan :
    (node_type : String) (relation : Option String) (plans : Plans)
    → is_empty (scanned node_type relation) ≡ false
    → HasScan (plan_node node_type relation plans)
root_scan node_type none plans h = ground arith
root_scan node_type (some relation) plans h = at_root (ground arith) (ground arith) (ground arith)

-- What is found is a scan.
mutual
  unfolding find_seq_scans find_in_plans

  found_scan :
      (node : PlanNode) (found : List String)
      → is_empty found ≡ true
      → is_empty (find_seq_scans node found) ≡ false
      → HasScan node
  found_scan (plan_node node_type relation plans) found none_yet h =
      elim (Bool-cases (is_empty (scanned node_type relation))) [
        | inr e ↦ root_scan node_type relation plans e
        | inl e ↦ inside (
            found_in plans _
              (rw (is_empty-append found (scanned node_type relation), none_yet, e) refl) h)
      ]

  found_in :
      (plans : Plans) (found : List String)
      → is_empty found ≡ true
      → is_empty (find_in_plans plans found) ≡ false
      → AnyHasScan plans
  found_in no_plans found none_yet h = ground arith
  found_in (plan_and node plans) found none_yet h =
      elim (Bool-cases (is_empty (find_seq_scans node found))) [
        | inr e ↦ here (found_scan node found none_yet e)
        | inl e ↦ later (found_in plans _ e h)
      ]

-- Whether one of the plans has a scan.
abbrev pub SomeHasScan : List (Option PlanNode) → Type 0
SomeHasScan [] = ⊥
SomeHasScan (none ∷ plans) = SomeHasScan plans
SomeHasScan (some plan ∷ plans) = HasScan plan ⊎ SomeHasScan plans

-- The check exits with 1 exactly when one of the plans that Postgres gives has, at any depth, a sequential
-- scan of `deliveries` or `delivery_attempts`.
pub check_plans-scans :
    (plans : List (Option PlanNode)) → (check_plans plans ≡ 1) ↔ SomeHasScan plans
unfolding check_plans
check_plans-scans [] = (λ h. ground arith, λ h. absurd h)
check_plans-scans (none ∷ plans) = check_plans-scans plans
check_plans-scans (some plan ∷ plans) = elim (Bool-cases (is_empty (find_seq_scans plan []))) [
  | inl e ↦ rw e (
    λ h. inr ((check_plans-scans plans).0 h),
    λ s. elim s [
      | inl has ↦ absurd (clash (is_empty (find_seq_scans plan [])) e (finds plan has []))
      | inr any ↦ (check_plans-scans plans).1 any
    ],
  )
  | inr e ↦ rw e (λ h. inl (found_scan plan [] refl e), λ s. refl)
]
