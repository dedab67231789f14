-- ===== src/Analytics.antt =====
-- domain/analytics, the journal of served queries and the reports over it.
pub mod Values
pub mod Journal
pub mod Reports
pub mod Entries
pub mod Frequencies
pub mod Queries
