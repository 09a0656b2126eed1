-- ===== src/Verification.antt =====
-- Verifying an email address: EmailVerificationToken, its table, and the use cases that send and
-- take the link (src/features/shared/auth).
pub mod Tokens
pub mod UseCases
pub mod Laws
mod Tests
