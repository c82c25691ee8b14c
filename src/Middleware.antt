-- ===== src/Middleware.antt =====
-- internal/middleware: the keys of a tenant, the authentication of a request, CORS and the log.
pub mod Jwks
pub mod Auth
pub mod Chain
pub mod Log
pub mod Sample
mod Tests
