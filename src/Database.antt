-- ===== src/Database.antt =====
-- infrastructure/adapters/persistence: the gateways over one SQLAlchemy session.
pub mod Session
pub mod Tasks
pub mod TaskTable
pub mod Reaping
pub mod Relaying
pub mod Outbox
pub mod Catalog
pub mod TaskViews
