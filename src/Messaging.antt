-- ===== src/Messaging.antt =====
-- The job queue: src/shared/infrastructure/queue and src/shared/application/messaging.
pub mod RetryPolicy
pub mod Consumer
pub mod Idempotency
pub mod Bounds
pub mod Lifecycle
pub mod Once
mod Tests
