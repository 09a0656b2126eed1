-- ===== src/Analytics.antt =====
-- The time ranges and the series statistics of visualizations:
-- src/features/public/analytics/domain.
pub mod Buckets
pub mod Calendar
pub mod CalendarLaws
pub mod Zone
pub mod ZoneSearch
pub mod ZoneLaws
pub mod Windows
pub mod WindowLaws
pub mod Parsing
pub mod RangeLaws
pub mod Fallback
pub mod FallbackLaws
pub mod Stats
pub mod StatsLaws
mod Tests
