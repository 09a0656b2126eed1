-- ===== src/Registration.antt =====
-- Registering a user with an organization of their own (src/features/shared/auth).
pub mod UseCase
pub mod Laws
mod Tests
