-- ===== src/Web.antt =====
-- presentation/http/v1: the routes, their schemas, and the answer of a request.
pub mod Replies
pub mod Criteria
pub mod Consulting
pub mod Statistics
pub mod Tasks
