-- ===== src/Categories.antt =====
-- The categories of metrics: src/features/public/metric-category.
pub mod Values
pub mod Table
pub mod UseCases
pub mod Listing
pub mod Snapshots
pub mod Cached
pub mod CachedLaws
pub mod ListedRows
pub mod CacheHistory
pub mod CachedLists
mod Tests
