-- ===== src/Dashboard/Hooks/Projects.antt =====
-- web/src/features/projects/hooks/useProjects.ts
use flag_it.Common.{String, [], ◌∷◌}
use flag_it.Sdk.Json.{Json}
use flag_it.Dashboard.Endpoints.Projects
use flag_it.Dashboard.Hooks.{Query, Mutation, query, mutation, invalidate, set_data}
use flag_it.Dashboard.Hooks.Keys

module _ {N : Type 0} where
  abbrev pub use_projects : String → Query N
  use_projects o = query (Keys.projects o) (Projects.list o)

  abbrev pub use_create_project : String → Mutation (Json N) (Json N) N
  use_create_project o =
      mutation (λ input. Projects.create o input) (λ _ _. invalidate (Keys.projects o) ∷ [])

  abbrev pub use_update_project : String → String → Mutation String (Json N) N
  use_update_project o p =
      mutation (λ name. Projects.update o p name)
        (λ project _. set_data (Keys.project o p) project ∷ invalidate (Keys.projects o) ∷ [])

  abbrev pub use_project : String → String → Query N
  use_project o p = query (Keys.project o p) (Projects.get_one o p)

  abbrev pub use_delete_project : String → Mutation String (Unit {0}) N
  use_delete_project o =
      mutation (λ p. Projects.remove o p) (λ _ _. invalidate (Keys.projects o) ∷ [])
