-- ===== src/Dashboard/Hooks/SdkKeys.antt =====
-- web/src/features/sdk-keys/hooks/useSdkKeys.ts
use flag_it.Common.{String, [], ◌∷◌, str_eq, not}
use flag_it.Sdk.Json.{Json}
use flag_it.Dashboard.Endpoints.SdkKeys
use flag_it.Dashboard.Hooks.{Query, Mutation, query, enabled_if, mutation, invalidate}
use flag_it.Dashboard.Hooks.Keys

module _ {N : Type 0} where
  abbrev pub use_sdk_keys : String → String → String → Query N
  use_sdk_keys o p env =
      enabled_if (not (str_eq env "")) (query (Keys.sdk_keys o p env) (SdkKeys.list o p env))

  abbrev pub use_create_sdk_key : String → String → String → Mutation (Json N) (Json N) N
  use_create_sdk_key o p env =
      mutation (λ input. SdkKeys.create o p env input)
        (λ _ _. invalidate (Keys.sdk_keys o p env) ∷ [])

  abbrev pub use_revoke_sdk_key : String → String → String → Mutation String (Unit {0}) N
  use_revoke_sdk_key o p env =
      mutation (λ id. SdkKeys.revoke o p env id) (λ _ _. invalidate (Keys.sdk_keys o p env) ∷ [])
