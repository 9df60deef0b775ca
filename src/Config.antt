-- ===== src/Config.antt =====
-- shared/config.ts: the settings that the modelled code reads. Every number is validated as a
-- positive integer; `backoff_base_ms` is the parsed list.
use webhook_delivery_engine.Prelude.{ℕ, List, [], ◌∷◌}

pub record Config : Type 0 where
  pub http_timeout_ms : ℕ
  pub lock_ttl_ms : ℕ
  pub reconciler_grace_seconds : ℕ
  pub reconciler_batch_size : ℕ
  pub backoff_base_ms : List ℕ
  pub backpressure_queue_limit : ℕ
  pub queue_depth_cache_ms : ℕ
  pub cb_fail_threshold : ℕ
  pub cb_window_seconds : ℕ
  pub cb_open_seconds : ℕ
  pub cb_probe_seconds : ℕ
  pub rl_max_inflight : ℕ
  pub rl_ttl_seconds : ℕ
  pub idem_ttl_seconds : ℕ
  pub max_payload_bytes : ℕ
  pub max_response_body_bytes : ℕ

-- The defaults of the schema.
abbrev pub defaults : Config
defaults = record {
  http_timeout_ms = 10_000;
  lock_ttl_ms = 60_000;
  reconciler_grace_seconds = 60;
  reconciler_batch_size = 500;
  backoff_base_ms = 10_000 ∷ 30_000 ∷ 120_000 ∷ 600_000 ∷ 3_600_000 ∷ [];
  backpressure_queue_limit = 50_000;
  queue_depth_cache_ms = 1_000;
  cb_fail_threshold = 20;
  cb_window_seconds = 300;
  cb_open_seconds = 60;
  cb_probe_seconds = 10;
  rl_max_inflight = 50;
  rl_ttl_seconds = 120;
  idem_ttl_seconds = 86_400;
  max_payload_bytes = 262_144;
  max_response_body_bytes = 4_096;
}
