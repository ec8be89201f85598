-- ===== src/Http.antt =====
-- services/api_go/internal/httpapi: the requests of clients.
pub mod Response
pub mod Request
pub mod Run
pub mod Session
pub mod Jobs
pub mod Files
pub mod Admin
pub mod Serve
pub mod Keeps
pub mod Access
pub mod Secrets
pub mod Limiter
pub mod Examples
