-- ===== src/Backend.antt =====
-- The backend that web/src/mocks/handlers.ts keeps in memory.
pub mod Targets
pub mod Rules
pub mod Instructions
pub mod Store
pub mod Changes
pub mod Scheduled
pub mod Steps
pub mod Segments
pub mod Triggers
pub mod Webhooks
mod Tests
pub mod Users
pub mod Flags
pub mod Directory
pub mod Searches
