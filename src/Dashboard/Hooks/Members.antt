-- ===== src/Dashboard/Hooks/Members.antt =====
-- web/src/features/members/hooks/useMembers.ts
use flag_it.Common.{String, [], ◌∷◌}
use flag_it.Sdk.Json.{Json}
use flag_it.Dashboard.Endpoints.Members
use flag_it.Dashboard.Hooks.{Query, Mutation, query, mutation, invalidate}
use flag_it.Dashboard.Hooks.Keys

module _ {N : Type 0} where
  abbrev pub use_members : String → Query N
  use_members o = query (Keys.members o) (Members.list o)

  abbrev pub use_add_member : String → Mutation (Json N) (Json N) N
  use_add_member o =
      mutation (λ input. Members.add o input) (λ _ _. invalidate (Keys.members o) ∷ [])

  abbrev pub use_grant_project_role : String → String → Mutation (Json N) (Json N) N
  use_grant_project_role o p = mutation (λ input. Members.grant_project_role o p input) (λ _ _. [])
