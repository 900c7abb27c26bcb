-- ===== src/Dashboard/Hooks/Flags.antt =====
-- web/src/features/flags/hooks/useFlags.ts
use flag_it.Common.{Bool, String, [], ◌∷◌, ◌++◌, str_eq, not}
use flag_it.Sdk.Json.{Json}
use flag_it.Dashboard.Api.{Web}
use flag_it.Dashboard.Endpoints.Flags
use flag_it.Dashboard.Endpoints.Flags.{CreateFlagInput}
use flag_it.Dashboard.Hooks.{Query, Mutation, query, enabled_if, mutation, invalidate, set_data}
use flag_it.Dashboard.Hooks.Keys

-- The variables of the two toggles.
pub record FlagSwitch : Type 0 where
  pub flag_key : String
  pub on : Bool

pub record EnvSwitch : Type 0 where
  pub env_key : String
  pub on : Bool

module _ {N : Type 0} where
  abbrev pub use_flags : String → String → Query N
  use_flags o p = query (Keys.flags o p) (Flags.list o p)

  abbrev pub use_flag_lifecycle : String → String → Query N
  use_flag_lifecycle o p = query (Keys.flag_lifecycle o p) (Flags.list_lifecycle o p)

  abbrev pub use_env_flags : Web → String → String → String → String → Query N
  use_env_flags web o p env search =
      enabled_if (not (str_eq env ""))
        (query (Keys.env_flags o p env ++ search ∷ []) (Flags.list_in_env web o p env search))

  abbrev pub use_toggle_env_flag : String → String → String → Mutation FlagSwitch (Json N) N
  use_toggle_env_flag o p env =
      mutation (λ v. Flags.toggle o p v.flag_key env v.on)
        (λ _ _. invalidate (Keys.env_flags o p env) ∷ [])

  abbrev pub use_create_flag : String → String → Mutation (CreateFlagInput N) (Json N) N
  use_create_flag o p =
      mutation (λ input. Flags.create o p input) (λ _ _. invalidate (Keys.flags o p) ∷ [])

  abbrev pub use_flag : String → String → String → Query N
  use_flag o p flag = query (Keys.flag o p flag) (Flags.get_one o p flag)

  abbrev pub use_flag_config : String → String → String → String → Query N
  use_flag_config o p flag env =
      enabled_if (not (str_eq env ""))
        (query (Keys.flag_config o p flag env) (Flags.get_config o p flag env))

  abbrev pub use_toggle_flag : String → String → String → Mutation EnvSwitch (Json N) N
  use_toggle_flag o p flag =
      mutation (λ v. Flags.toggle o p flag v.env_key v.on)
        (λ config v. set_data (Keys.flag_config o p flag v.env_key) config ∷ [])

  abbrev pub use_patch_flag_config :
      String → String → String → String → Mutation (Json N) (Json N) N
  use_patch_flag_config o p flag env =
      mutation (λ instructions. Flags.patch_config o p flag env instructions)
        (λ config _.
          set_data (Keys.flag_config o p flag env) config
          ∷ invalidate (Keys.env_flags o p env)
          ∷ [])

  abbrev pub use_delete_flag : String → String → Mutation String (Unit {0}) N
  use_delete_flag o p =
      mutation (λ flag. Flags.remove o p flag) (λ _ _. invalidate ("flags" ∷ o ∷ p ∷ []) ∷ [])
