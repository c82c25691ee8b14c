-- ===== src/Http.antt =====
-- internal/executor/http: the HTTP tool executor and its guard against requests to private networks.
pub mod Ssrf
pub mod Template
pub mod Query
pub mod Config
pub mod Execute
mod Tests
