-- ===== src/Dashboard/Endpoints.antt =====
-- The endpoints, web/src/api/endpoints: one module per file, one function per call. An input that an
-- endpoint only passes on is the JSON value that it is sent as.
pub mod Analytics
pub mod Audit
pub mod Auth
pub mod Changes
pub mod Contexts
pub mod Environments
pub mod Flags
pub mod Members
pub mod Organizations
pub mod Projects
pub mod Roles
pub mod ScheduledChanges
pub mod SdkKeys
pub mod Segments
pub mod Setup
pub mod Triggers
pub mod Users
pub mod Webhooks
