-- ===== src/Runtime.antt =====
-- What the process runs beside requests: the readiness probe, tasks in the background and the
-- shutdown (src/shared/utils/readiness-probe.ts, src/utils/background-tasks.ts and shutdown.ts).
pub mod Readiness
pub mod ReadinessLaws
pub mod Shutdown
pub mod ShutdownLaws
pub mod Background
mod Tests
