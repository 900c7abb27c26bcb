-- ===== src/Dashboard/Hooks/Triggers.antt =====
-- web/src/features/flags/hooks/useTriggers.ts
use flag_it.Common.{Bool, String, List, [], ◌∷◌, ◌++◌, str_eq, not}
use flag_it.Sdk.Json.{Json}
use flag_it.Dashboard.Endpoints.Triggers
use flag_it.Dashboard.Hooks.{Query, Effect, Mutation, query, enabled_if, mutation, invalidate}
use flag_it.Dashboard.Hooks.Keys

-- The variables of `useSetTriggerEnabled`.
pub record Enabling : Type 0 where
  pub id : String
  pub enabled : Bool

module _ {N : Type 0} where
  abbrev pub use_triggers : String → String → String → String → Query N
  use_triggers o p flag env =
      enabled_if (not (str_eq env ""))
        (query (Keys.triggers o p ++ flag ∷ env ∷ []) (Triggers.list o p flag env))

  abbrev pub invalidate_triggers : String → String → List (Effect N)
  invalidate_triggers o p = invalidate (Keys.triggers o p) ∷ []

  abbrev pub use_create_trigger : String → String → String → String → Mutation (Json N) (Json N) N
  use_create_trigger o p flag env =
      mutation (λ input. Triggers.create o p flag env input) (λ _ _. invalidate_triggers o p)

  abbrev pub use_set_trigger_enabled : String → String → Mutation Enabling (Json N) N
  use_set_trigger_enabled o p =
      mutation (λ v. Triggers.set_enabled o p v.id v.enabled) (λ _ _. invalidate_triggers o p)

  abbrev pub use_reset_trigger : String → String → Mutation String (Json N) N
  use_reset_trigger o p = mutation (λ id. Triggers.reset o p id) (λ _ _. invalidate_triggers o p)

  abbrev pub use_delete_trigger : String → String → Mutation String (Unit {0}) N
  use_delete_trigger o p = mutation (λ id. Triggers.remove o p id) (λ _ _. invalidate_triggers o p)
