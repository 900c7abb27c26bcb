-- ===== src/Dashboard.antt =====
-- The dashboard's own computations, in web/src/lib and web/src/features.
pub mod Trim
pub mod Rollouts
pub mod RuleForm
pub mod FlagRules
pub mod Api
pub mod Endpoints
pub mod Hooks
pub mod Coherence
pub mod Session
pub mod Config
pub mod Guards
pub mod Slug
pub mod Forms
pub mod FlagPage
pub mod Clauses
pub mod InstructionTexts
pub mod SegmentEditor
pub mod SearchBox
pub mod Shares
mod Tests
