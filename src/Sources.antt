-- ===== src/Sources.antt =====
-- infrastructure/adapters/source_file: the uploaded source file, as bytes on disk and as rows.
pub mod Reader
pub mod Storage
