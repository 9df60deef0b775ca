-- ===== src/Queue.antt =====
-- BullMQ as the code uses it, as an interface, and queue/backoff.ts. A job is known by its id from
-- its adding until BullMQ removes it; a finished job is still known.
pub mod Backoff
use webhook_delivery_engine.Prelude.{
  ℕ, zero, suc, ◌+◌, ◌-◌, ◌*◌, ◌/◌, ◌^◌, ◌≡◌, Bool, true, false, ◌==◌, ◌&&◌, if◌then◌else◌, Option,
  none, some, or_else, List, [], length, get_elem?,
}
use webhook_delivery_engine.Config.{Config}

-- `{deliveryId}`, or `{deliveryId}:retry:{epochMs}` of a manual retry.
pub data JobId : Type 0 where
  original : ℕ → JobId
  retry : ℕ → ℕ → JobId

abbrev pub job_id_eq : JobId → JobId → Bool
job_id_eq (original a) (original b) = a == b
job_id_eq (retry a t) (retry b u) = (a == b) && (t == u)
job_id_eq _ _ = false

pub record Bull : Type 1 where
  pub State : Type 0
  -- The delivery that a known job is about.
  pub job : JobId → State → Option ℕ
  -- Whether the job will still be run: it waits, is delayed or active.
  pub is_live : JobId → State → Bool
  -- queue.add(name, { deliveryId }, { jobId })
  pub add : JobId → ℕ → State → State
  -- job.moveToDelayed(timestamp)
  pub move_to_delayed : JobId → ℕ → State → State
  -- Adding a known job does nothing.
  pub add_known :
      (j : JobId) (delivery_id : ℕ) (s : State) {d : ℕ} → job j s ≡ some d → add j delivery_id s ≡ s
  pub job-add :
      (i j : JobId) (delivery_id : ℕ) (s : State)
      → job j s ≡ none
      → job i (add j delivery_id s) ≡ (if job_id_eq j i then some delivery_id else job i s)
  pub is_live-add :
      (i j : JobId) (delivery_id : ℕ) (s : State)
      → job j s ≡ none
      → is_live i (add j delivery_id s) ≡ (if job_id_eq j i then true else is_live i s)
  pub job-move_to_delayed :
      (i j : JobId) (timestamp : ℕ) (s : State) → job i (move_to_delayed j timestamp s) ≡ job i s

pub record Job : Type 0 where
  pub id : JobId
  pub delivery_id : ℕ
  pub attempts_made : ℕ

-- `config.BACKOFF_BASE_MS[attemptsMade - 1]`; index -1 reads `undefined`.
abbrev pub backoff_entry : List ℕ → ℕ → Option ℕ
backoff_entry bases zero = none
backoff_entry bases (suc n) = get_elem? bases n

-- The entry of the attempt, or the last one.
unfoldable pub backoff_base : List ℕ → ℕ → ℕ
backoff_base bases attempts_made =
    or_else (backoff_entry bases attempts_made) (or_else (get_elem? bases (length bases - 1)) 0)

-- `Math.random()` is `random / 2 ^ 53`, so `floor(base / 2 + random * (base / 2))` is this quotient.
unfoldable pub webhook_backoff : Config → ℕ → ℕ → ℕ
unfolding backoff_base
webhook_backoff c random attempts_made =
    backoff_base c.backoff_base_ms attempts_made * (2 ^ 53 + random) / 2 ^ 54
