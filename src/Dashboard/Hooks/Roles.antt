-- ===== src/Dashboard/Hooks/Roles.antt =====
-- web/src/features/roles/hooks/useRoles.ts
use flag_it.Common.{some, String, [], ◌∷◌}
use flag_it.Sdk.Json.{Json}
use flag_it.Dashboard.Endpoints.Roles
use flag_it.Dashboard.Hooks.{Query, Mutation, infinity, query, mutation, invalidate}
use flag_it.Dashboard.Hooks.Keys

module _ {N : Type 0} where
  abbrev pub use_roles : String → Query N
  use_roles o = query (Keys.roles o) (Roles.list o)

  abbrev pub use_permissions : Query N
  use_permissions = record (query Keys.permissions Roles.permissions) { stale_time = some infinity }

  abbrev pub use_create_role : String → Mutation (Json N) (Json N) N
  use_create_role o =
      mutation (λ input. Roles.create o input) (λ _ _. invalidate (Keys.roles o) ∷ [])
