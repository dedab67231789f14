-- ===== src/Application.antt =====
-- The application layer (application/): effects, ports, pipelines and handlers.
pub mod Io
pub mod Scope
pub mod Ports
pub mod Pipelines
pub mod Outbox
pub mod Handlers
pub mod Worker
