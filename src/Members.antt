-- ===== src/Members.antt =====
-- Memberships: the entity, its table, and the use cases that remove a member and change a role
-- (src/features/shared/auth).
pub mod Table
pub mod UseCases
pub mod Owners
pub mod Roles
pub mod Race
pub mod Pages
mod Tests
