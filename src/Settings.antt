-- ===== src/Settings.antt =====
-- The settings of a metric: src/features/public/metric-settings.
pub mod Entity
pub mod EntityLaws
pub mod Table
pub mod UseCases
pub mod Laws
pub mod Listing
mod Tests
