-- ===== src/Cache.antt =====
-- The cache of lists: src/shared/cache.
pub mod Keys
pub mod Parts
pub mod KeyLaws
pub mod Isolation
pub mod PlainIds
pub mod Tenants
pub mod ListKeys
mod Tests
