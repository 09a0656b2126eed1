-- ===== src/Config.antt =====
-- The environment: src/config/zodEnv.ts.
pub mod Reading
pub mod Fields
pub mod Schema
pub mod Refusals
pub mod Normalizing
pub mod RefusalLaws
pub mod Spreading
pub mod Hardening
mod Tests
