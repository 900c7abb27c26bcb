-- ===== src/Dashboard/Hooks/ScheduledChanges.antt =====
-- web/src/features/flags/hooks/useScheduledChanges.ts
use flag_it.Common.{Option, some, String, [], ◌∷◌, ◌++◌, str_eq, not}
use flag_it.Sdk.Json.{Json}
use flag_it.Dashboard.Api.{Web}
use flag_it.Dashboard.Endpoints.ScheduledChanges
use flag_it.Dashboard.Hooks.{Query, Mutation, query, enabled_if, mutation, invalidate}
use flag_it.Dashboard.Hooks.Keys
use flag_it.Dashboard.Hooks.Changes.{or_all}

module _ {N : Type 0} where
  abbrev pub use_scheduled_changes :
      Web → String → String → String → String → Option String → Query N
  use_scheduled_changes web o p flag env status = enabled_if (not (str_eq env "")) (
      query (Keys.scheduled_changes o p ++ flag ∷ env ∷ or_all status ∷ []) (
        ScheduledChanges.list web o p
          (record { status = status; flag = some flag; env = some env })))

  abbrev pub use_create_scheduled_change :
      String → String → String → String → Mutation (Json N) (Json N) N
  use_create_scheduled_change o p flag env =
      mutation (λ input. ScheduledChanges.create o p flag env input)
        (λ _ _. invalidate (Keys.scheduled_changes o p) ∷ [])

  abbrev pub use_cancel_scheduled_change : String → String → Mutation String (Json N) N
  use_cancel_scheduled_change o p =
      mutation (λ id. ScheduledChanges.cancel o p id)
        (λ _ _. invalidate (Keys.scheduled_changes o p) ∷ [])
