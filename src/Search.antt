-- ===== src/Search.antt =====
-- domain/search and the application's search: retrieval, fusion and the grounded answer.
pub mod Values
pub mod Fusion
pub mod Hybrid
pub mod Retrievers
pub mod Generator
