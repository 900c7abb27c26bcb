-- ===== src/Dashboard/Hooks/Environments.antt =====
-- web/src/features/environments/hooks/useEnvironments.ts
use flag_it.Common.{String, [], ◌∷◌, ◌++◌}
use flag_it.Sdk.Json.{Json}
use flag_it.Dashboard.Api.{Web}
use flag_it.Dashboard.Endpoints.Environments
use flag_it.Dashboard.Hooks.{Query, Mutation, query, mutation, invalidate}
use flag_it.Dashboard.Hooks.Keys

module _ {N : Type 0} where
  abbrev pub use_environments : Web → String → String → String → Query N
  use_environments web o p search =
      query (Keys.environments o p ++ search ∷ []) (Environments.list web o p search)

  abbrev pub use_create_environment : String → String → Mutation (Json N) (Json N) N
  use_create_environment o p =
      mutation (λ input. Environments.create o p input)
        (λ _ _. invalidate (Keys.environments o p) ∷ [])
