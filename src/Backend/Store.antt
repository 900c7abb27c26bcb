-- ===== src/Backend/Store.antt =====
-- What web/src/mocks/handlers.ts remembers of flag configurations, change requests and scheduled
-- changes, and the handlers that read and patch a configuration. A handler takes the store to a
-- store and a reply.
pub mod Lookups
use Prim.Native.String.{◌++◌ as str_append}
use flag_it.Common.{ℕ, Option, none, some, String, List, [], ◌∷◌, str_eq, if◌then◌else◌}
use flag_it.Flags.{FlagConfig, FlagInstruction, ChangeRequest, ScheduledChange}
use flag_it.Backend.Instructions.{new_config, apply_instructions}

-- The body of a reply, or the status and the detail of an error.
pub data Reply (A : Type 0) : Type 0 where
  json : A → Reply A
  failure : ℕ → String → Reply A

-- The parameters of a route.
pub record Route : Type 0 where
  pub project_key : String
  pub env_key : String
  pub flag_key : String

pub record Store (V : Type 0) : Type 0 where
  pub configs : List (String × FlagConfig V)
  pub changes : List (ChangeRequest V)
  pub scheduled : List (ScheduledChange V)
  pub issued : ℕ

abbrev pub config_key : String → String → String
config_key flag_key env_key = str_append flag_key (str_append ":" env_key)

module _ {V : Type 0} where
  unfoldable pub lookup : String → List (String × FlagConfig V) → Option (FlagConfig V)
  lookup k [] = none
  lookup k ((j, c) ∷ configs) = if str_eq j k then some c else lookup k configs

  unfoldable pub put :
      String → FlagConfig V → List (String × FlagConfig V) → List (String × FlagConfig V)
  put k c [] = (k, c) ∷ []
  put k c ((j, d) ∷ configs) = if str_eq j k then (j, c) ∷ configs else (j, d) ∷ put k c configs

  abbrev pub or_new : Option (FlagConfig V) → FlagConfig V
  or_new none = new_config
  or_new (some c) = c

  -- The configuration that is stored under the key, or a new one.
  unfoldable pub config_at : String → Store V → FlagConfig V
  unfolding lookup
  config_at k s = or_new (lookup k s.configs)

  -- `flagConfigs[k] ??= newConfig()`
  unfoldable pub get_config : Route → Store V → Store V × Reply (FlagConfig V)
  unfolding put config_at
  get_config route s =
      let k = config_key route.flag_key route.env_key in
      let c = config_at k s in (record s { configs = put k c s.configs }, json c)

  -- `applyInstructions` on the configuration that is stored under the key.
  unfoldable pub apply_at : (ℕ → String) → String → List (FlagInstruction V) → Store V → Store V
  unfolding apply_instructions put config_at
  apply_at uuid k instructions s =
      let t =
        apply_instructions uuid instructions
          (record { config = config_at k s; issued = s.issued }) in
      record s { configs = put k t.config s.configs; issued = t.issued }

  unfoldable pub patch_config :
      (ℕ → String) → Route → List (FlagInstruction V) → Store V → Store V × Reply (FlagConfig V)
  unfolding apply_at
  patch_config uuid route instructions s =
      let k = config_key route.flag_key route.env_key in
      let t = apply_at uuid k instructions s in (t, json (config_at k t))
