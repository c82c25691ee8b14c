-- ===== src/Mcp.antt =====
-- internal/executor/mcp: tools of MCP servers, over the pipes of a child process or over HTTP.
pub mod Environment
pub mod Allowlist
pub mod Protocol
pub mod Outbound
pub mod ServerConfig
pub mod Stdio
pub mod Execute
mod Tests
