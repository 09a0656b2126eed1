-- ===== src/Accounts.antt =====
-- Accounts: the users and their table, and the login lockout (src/features/shared/auth).
pub mod Users
pub mod Lockout
pub mod Blocking
mod Tests
