-- ===== src/Http.antt =====
-- What stands before and behind the handlers: authentication, roles and the answers to errors
-- (src/features/shared/auth/infrastructure/http and src/shared/middleware).
pub mod Auth
pub mod Contexts
pub mod AuthLaws
pub mod Issues
pub mod Errors
pub mod ErrorLaws
mod Tests
