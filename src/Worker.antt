-- ===== src/Worker.antt =====
-- The worker process (worker/*.ts): processing a job, and moving exhausted deliveries to the DLQ.
pub mod HttpClient
pub mod Signature
pub mod Heartbeat
pub mod Outcome
pub mod Processor
pub mod DlqHandler
pub mod Bystanders
pub mod Audit
