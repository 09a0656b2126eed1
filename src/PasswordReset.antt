-- ===== src/PasswordReset.antt =====
-- Resetting a forgotten password: RequestPasswordReset and ResetPassword of
-- src/features/shared/auth/application/use-cases, the entity PasswordResetToken and its table.
pub mod Tokens
pub mod Requests
pub mod Resets
pub mod Laws
pub mod OneEmail
mod Tests
