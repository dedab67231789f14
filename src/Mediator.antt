-- ===== src/Mediator.antt =====
-- infrastructure/mediator: the registry, the chain of pipelines and `MediatorImpl.send`.
pub mod Chain
pub mod Registry
