-- ===== src/Ai/Openai.antt =====
-- internal/ai/provider/openai/provider.go
pub mod Wire
pub mod Requests
pub mod Replies
pub mod Chat
pub mod Streaming
mod Tests
