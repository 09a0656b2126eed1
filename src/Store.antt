-- ===== src/Store.antt =====
-- The state that a request or a job runs against, the errors it can end in, and the monad of the
-- use cases: features/shared/auth/domain/entities, src/shared/domain/errors/DomainError.ts and
-- src/shared/infrastructure/persistence/SequelizeTransactionPort.ts.
mod Rows
mod Tracked
mod Effects
mod Laws
pub use Laws.*
pub use Rows.*
pub use Tracked.*
pub use Effects.*
