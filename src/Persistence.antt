-- ===== src/Persistence.antt =====
-- infrastructure/persistence: how the values of the domain become columns, and columns values.
pub mod Columns
pub mod Made
pub mod Rows
