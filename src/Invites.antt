-- ===== src/Invites.antt =====
-- Invitations to an organization: OrganizationInvite, its table, and the use cases that send and
-- accept one (src/features/shared/auth).
pub mod Table
pub mod UseCases
pub mod Accepting
pub mod Sending
mod Tests
