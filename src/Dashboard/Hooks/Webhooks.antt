-- ===== src/Dashboard/Hooks/Webhooks.antt =====
-- web/src/features/webhooks/hooks/useWebhooks.ts
use flag_it.Common.{Bool, String, List, [], ◌∷◌}
use flag_it.Sdk.Json.{Json}
use flag_it.Dashboard.Endpoints.Webhooks
use flag_it.Dashboard.Hooks.{Query, Effect, Mutation, query, enabled_if, mutation, invalidate}
use flag_it.Dashboard.Hooks.Keys
use flag_it.Dashboard.Hooks.Triggers.{Enabling}

module _ {N : Type 0} where
  abbrev pub use_webhooks : String → Query N
  use_webhooks o = query (Keys.webhooks o) (Webhooks.list o)

  abbrev pub use_webhook_deliveries : String → String → Bool → Query N
  use_webhook_deliveries o id enabled =
      enabled_if enabled (query (Keys.webhook_deliveries o id) (Webhooks.deliveries o id))

  abbrev pub invalidate_webhooks : String → List (Effect N)
  invalidate_webhooks o = invalidate (Keys.webhooks o) ∷ []

  abbrev pub use_create_webhook : String → Mutation (Json N) (Json N) N
  use_create_webhook o = mutation (λ input. Webhooks.create o input) (λ _ _. invalidate_webhooks o)

  abbrev pub use_set_webhook_enabled : String → Mutation Enabling (Json N) N
  use_set_webhook_enabled o =
      mutation (λ v. Webhooks.set_enabled o v.id v.enabled) (λ _ _. invalidate_webhooks o)

  abbrev pub use_reset_webhook_secret : String → Mutation String (Json N) N
  use_reset_webhook_secret o = mutation (λ id. Webhooks.reset o id) (λ _ _. invalidate_webhooks o)

  abbrev pub use_test_webhook : String → Mutation String (Json N) N
  use_test_webhook o = mutation (λ id. Webhooks.test o id) (λ _ _. [])

  abbrev pub use_delete_webhook : String → Mutation String (Unit {0}) N
  use_delete_webhook o = mutation (λ id. Webhooks.remove o id) (λ _ _. invalidate_webhooks o)
