-- ===== src/Dashboard/Hooks/Audit.antt =====
-- web/src/features/audit/hooks/useAudit.ts
use flag_it.Common.{String, [], ◌∷◌, ◌++◌}
use flag_it.Dashboard.Api.{Web}
use flag_it.Dashboard.Endpoints.Audit
use flag_it.Dashboard.Hooks.{Query, query}
use flag_it.Dashboard.Hooks.Keys

module _ {N : Type 0} where
  abbrev pub use_audit : Web → String → String → Query N
  use_audit web o type = query (Keys.audit o ++ type ∷ []) (Audit.list web o type)
