-- ===== src/ExplainCheck.antt =====
-- scripts/explain-check.ts: which hot queries would scan a table. The plans that Postgres gives are the
-- input.
pub mod Scans
use webhook_delivery_engine.Prelude.{
  ◌++◌, none, ◌&&◌, not, ◌||◌, str_eq, false, true, if◌then◌else◌, some, Bool, ◌∷◌, [], String,
  Option, List, ℕ,
}

mutual
  pub data PlanNode : Type 0 where
    -- 'Node Type', 'Relation Name', Plans
    plan_node : String → Option String → Plans → PlanNode

  pub data Plans : Type 0 where
    no_plans : Plans
    plan_and : PlanNode → Plans → Plans

-- SEQ_SCAN_ALERT_TABLES
abbrev pub is_alert_table : String → Bool
is_alert_table relation = str_eq relation "deliveries" || str_eq relation "delivery_attempts"

-- What a node of its own adds; an empty name counts as none.
abbrev pub scanned : String → Option String → List String
scanned node_type none = []
scanned node_type (some relation) =
    if str_eq node_type "Seq Scan" && not (str_eq relation "") && is_alert_table relation
    then relation ∷ []
    else []

-- `found` is the array that the calls push to.
unfoldable mutual
  pub find_seq_scans : PlanNode → List String → List String
  find_seq_scans (plan_node node_type relation plans) found =
      find_in_plans plans (found ++ scanned node_type relation)

  pub find_in_plans : Plans → List String → List String
  find_in_plans no_plans found = found
  find_in_plans (plan_and node plans) found = find_in_plans plans (find_seq_scans node found)

abbrev pub is_empty : List String → Bool
is_empty [] = true
is_empty (x ∷ xs) = false

-- Whether a query fails the check; one without a plan is skipped.
abbrev pub query_fails : Option PlanNode → Bool
query_fails none = false
query_fails (some plan) = not (is_empty (find_seq_scans plan []))

-- The exit code, for the plans of the hot queries.
unfoldable pub check_plans : List (Option PlanNode) → ℕ
unfolding find_seq_scans
check_plans [] = 0
check_plans (plan ∷ plans) = let rest = check_plans plans in if query_fails plan then 1 else rest
