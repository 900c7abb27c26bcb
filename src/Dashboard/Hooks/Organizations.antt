-- ===== src/Dashboard/Hooks/Organizations.antt =====
-- web/src/features/organizations/hooks/useOrganizations.ts
use flag_it.Common.{String, [], ◌∷◌}
use flag_it.Dashboard.Endpoints.Organizations
use flag_it.Dashboard.Hooks.{Query, Mutation, query, mutation, invalidate}
use flag_it.Dashboard.Hooks.Keys

module _ {N : Type 0} where
  abbrev pub use_organizations : Query N
  use_organizations = query Keys.organizations Organizations.list

  abbrev pub use_delete_organization : Mutation String (Unit {0}) N
  use_delete_organization =
      mutation (λ o. Organizations.remove o) (λ _ _. invalidate (Keys.organizations) ∷ [])
