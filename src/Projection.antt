-- ===== src/Projection.antt =====
-- The projection of the catalog's changes onto the search index.
pub mod Writer
pub mod Laws
pub mod Handlers
