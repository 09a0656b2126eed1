-- ===== src/Logs.antt =====
-- The logs of a metric, and the job that makes dummy ones: src/features/public/metric-log.
pub mod Table
pub mod UseCases
pub mod DummyJob
pub mod JobLaws
pub mod Listing
mod Tests
