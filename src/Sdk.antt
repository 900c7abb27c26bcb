-- ===== src/Sdk.antt =====
-- The JavaScript SDK, sdk/javascript/src/index.ts.
pub mod Json
pub mod Sse
pub mod Context
pub mod Client
pub mod Stream
pub mod Cached
mod Tests
