-- ===== src/Executor.antt =====
-- internal/executor: the types that the executors, the invoker and the server share.
mod Json
mod Errors
mod Registration
mod Types
mod Decode
pub mod Resolver
mod Tests
unfoldable pub use Json.*
unfoldable pub use Errors.*
unfoldable pub use Decode.*
unfoldable pub use Types.*
unfoldable pub use Registration.*
