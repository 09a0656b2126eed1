-- ===== src/Session.antt =====
-- Sign-in sessions: the refresh tokens of src/features/shared/auth, and the use cases that issue,
-- rotate and revoke them.
pub mod RefreshTokens
pub mod Inputs
pub mod UseCases
pub mod Changes
pub mod Rotation
pub mod Steps
pub mod Switching
pub mod SigningIn
pub mod Reach
pub mod Spent
pub mod Replay
mod Tests
