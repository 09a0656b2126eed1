-- ===== src/Metrics.antt =====
-- Metrics: src/features/public/metric, and the check of access in src/utils/db-helper.ts.
pub mod Texts
pub mod Entity
pub mod Table
pub mod UseCases
pub mod Laws
mod Tests
