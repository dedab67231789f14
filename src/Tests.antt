-- ===== src/Tests.antt =====
-- Test data, in-memory ports, and each property at a concrete input.
pub mod Data
pub mod Memory
pub mod Domain
pub mod Commands
pub mod Relay
pub mod Outboxes
pub mod Searches
pub mod Reports
pub mod Storage
pub mod Projections
pub mod Databases
pub mod Retrieving
pub mod Statuses
pub mod Requests
