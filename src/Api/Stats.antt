-- ===== src/Api/Stats.antt =====
-- api/routes/stats.ts. The counts of the queues are those that BullMQ gives; both reads go through
-- `memoTtl`.
pub mod Counts
use mathlib.Core.Option
use webhook_delivery_engine.Db.{Status, pending, delivering, delivered, failed, dlq}
use webhook_delivery_engine.Prelude.{
  ◌-◌, ◌+◌, none, [], or_else, if◌then◌else◌, some, ltb, Bool, ◌∷◌, List, Option, ℕ,
}
use webhook_delivery_engine.Db.{status_eq, Delivery, Status, Db}
use webhook_delivery_engine.Config.{Config}

pub record StatusCounts : Type 0 where
  pub pending_count : ℕ
  pub delivering_count : ℕ
  pub delivered_count : ℕ
  pub failed_count : ℕ
  pub dlq_count : ℕ

-- The age is in milliseconds.
pub record DbStats : Type 0 where
  pub counts : StatusCounts
  pub oldest_pending_age : Option ℕ

abbrev pub zero_counts : StatusCounts
zero_counts = record {
  pending_count = 0;
  delivering_count = 0;
  delivered_count = 0;
  failed_count = 0;
  dlq_count = 0;
}

abbrev pub set_count : Status → ℕ → StatusCounts → StatusCounts
set_count pending n c = record c { pending_count = n }
set_count delivering n c = record c { delivering_count = n }
set_count delivered n c = record c { delivered_count = n }
set_count failed n c = record c { failed_count = n }
set_count dlq n c = record c { dlq_count = n }

abbrev pub add_to_group : Status → List (Status × ℕ) → List (Status × ℕ)
add_to_group s [] = (s, 1) ∷ []
add_to_group s ((t, n) ∷ groups) =
    let rest = add_to_group s groups in if status_eq t s then (t, n + 1) ∷ groups else (t, n) ∷ rest

-- SELECT status, count(*) ... GROUP BY status
unfoldable pub group_counts : List Delivery → List (Status × ℕ)
group_counts [] = []
group_counts (d ∷ ds) = add_to_group d.status (group_counts ds)

-- The loop over the groups.
unfoldable pub read_counts : List (Status × ℕ) → StatusCounts → StatusCounts
read_counts [] c = c
read_counts ((s, n) ∷ groups) c = read_counts groups (set_count s n c)

abbrev pub older : Option ℕ → ℕ → Option ℕ
older none t = some t
older (some u) t = if ltb u t then some u else some t

-- min(created_at) ... WHERE status = 'PENDING'
unfoldable pub oldest_pending : List Delivery → Option ℕ
oldest_pending [] = none
oldest_pending (d ∷ ds) =
    let rest = oldest_pending ds in
    if status_eq d.status pending then older rest d.created_at else rest

unfoldable pub db_stats : ℕ → Db → DbStats
unfolding group_counts read_counts oldest_pending
db_stats now db = record {
  counts = read_counts (group_counts db.deliveries) zero_counts;
  oldest_pending_age = Option.map (λ t. now - t) (oldest_pending db.deliveries);
}

-- The counts of the states that are asked for; a state may be missing.
pub record JobCounts : Type 0 where
  pub wait : Option ℕ
  pub active : Option ℕ
  pub delayed : Option ℕ
  pub failed_jobs : Option ℕ

pub record QueueDepths : Type 0 where
  pub webhook_delivery : JobCounts
  pub webhook_dlq : JobCounts

pub record StatsReply : Type 0 where
  pub deliveries : StatusCounts
  pub queues : QueueDepths
  pub oldest_pending_age : Option ℕ
  pub backpressure_active : Bool

unfoldable pub stats_reply : Config → DbStats → QueueDepths → StatsReply
stats_reply c stats queues = record {
  deliveries = stats.counts;
  queues = queues;
  oldest_pending_age = stats.oldest_pending_age;
  backpressure_active =
      ltb c.backpressure_queue_limit
        (or_else queues.webhook_delivery.wait 0 + or_else queues.webhook_delivery.delayed 0);
}
