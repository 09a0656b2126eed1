-- ===== src/RateLimits.antt =====
-- The rate limiters: src/shared/middleware/rate-limiter.ts.
pub mod Addresses
pub mod AddressLaws
mod Written
pub mod Limiters
pub mod LimiterLaws
mod Tests
