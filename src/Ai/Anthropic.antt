-- ===== src/Ai/Anthropic.antt =====
-- internal/ai/provider/anthropic/provider.go
pub mod Wire
pub mod Requests
pub mod Replies
pub mod Chat
pub mod Streaming
pub mod Failures
pub mod Turns
pub mod Conversation
pub mod Building
mod Tests
