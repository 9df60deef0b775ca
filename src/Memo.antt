-- ===== src/Memo.antt =====
-- shared/memo.ts: `memoTtl`, as a machine over the events of its callers and of the wrapped function.
pub mod Fresh
use webhook_delivery_engine.Prelude.{
  ◌+◌, ltb, false, Bool, some, none, true, if◌then◌else◌, Option, ℕ,
}

-- A call at a time, and the settling of the pending promise.
pub data MemoEvent (A : Type 0) : Type 0 where
  called : ℕ → MemoEvent A
  resolved : ℕ → A → MemoEvent A
  rejected : MemoEvent A

pub record Cached (A : Type 0) : Type 0 where
  pub value : A
  pub expires_at : ℕ

pub record Memo (A : Type 0) : Type 0 where
  pub cached : Option (Cached A)
  pub pending : Bool

-- What a caller gets: a cached value, the pending promise, or that of a new call of the function.
pub data MemoAnswer (A : Type 0) : Type 0 where
  hit : A → MemoAnswer A
  shares starts : MemoAnswer A

abbrev pub fresh_value : {A : Type 0} → ℕ → Option (Cached A) → Option A
fresh_value now none = none
fresh_value now (some c) = if ltb now c.expires_at then some c.value else none

abbrev pub or_pending : {A : Type 0} → Option A → Bool → MemoAnswer A
or_pending (some v) pending = hit v
or_pending none true = shares
or_pending none false = starts

unfoldable pub answer_call : {A : Type 0} → ℕ → Memo A → MemoAnswer A
answer_call now m = or_pending (fresh_value now m.cached) m.pending

abbrev pub after_answer : {A : Type 0} → MemoAnswer A → Memo A → Memo A
after_answer starts m = record m { pending = true }
after_answer _ m = m

-- Only a pending promise settles.
unfoldable pub memo_step : {A : Type 0} → ℕ → MemoEvent A → Memo A → Memo A
memo_step ttl_ms (called now) m = after_answer (answer_call now m) m
memo_step ttl_ms (resolved now value) m =
    if m.pending
    then record {
      cached = some (record { value = value; expires_at = now + ttl_ms });
      pending = false;
    }
    else m
memo_step ttl_ms rejected m = if m.pending then record m { pending = false } else m

abbrev pub new_memo : {A : Type 0} → Memo A
new_memo = record { cached = none; pending = false }
