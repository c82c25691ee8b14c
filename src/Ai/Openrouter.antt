-- ===== src/Ai/Openrouter.antt =====
-- internal/ai/provider/openrouter/provider.go
pub mod Wire
pub mod Chat
pub mod Keys
pub mod Tags
pub mod Silent
mod Tests
