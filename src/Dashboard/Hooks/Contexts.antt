-- ===== src/Dashboard/Hooks/Contexts.antt =====
-- web/src/features/contexts/hooks/useContexts.ts
use flag_it.Common.{String, [], ◌∷◌, ◌++◌, str_eq, not, ◌&&◌}
use flag_it.Dashboard.Api.{Web}
use flag_it.Dashboard.Endpoints.Contexts
use flag_it.Dashboard.Hooks.{Query, query, enabled_if}
use flag_it.Dashboard.Hooks.Keys

module _ {N : Type 0} where
  abbrev pub use_contexts : Web → String → String → String → String → Query N
  use_contexts web o p env search =
      enabled_if (not (str_eq env ""))
        (query (Keys.contexts o p env ++ search ∷ []) (Contexts.list web o p env search))

  abbrev pub use_context : Web → String → String → String → String → String → Query N
  use_context web o p env kind key =
      enabled_if (not (str_eq env "") && (not (str_eq kind "") && not (str_eq key "")))
        (query (Keys.one_context o p env kind key) (Contexts.get_one web o p env kind key))
