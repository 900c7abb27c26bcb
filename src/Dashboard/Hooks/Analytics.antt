-- ===== src/Dashboard/Hooks/Analytics.antt =====
-- web/src/features/analytics/hooks/useAnalytics.ts
use flag_it.Common.{String, [], ◌∷◌, str_eq, not}
use flag_it.Dashboard.Endpoints.Analytics
use flag_it.Dashboard.Hooks.{Query, query, enabled_if}

module _ {N : Type 0} where
  abbrev pub use_flag_stats : String → String → String → String → String → Query N
  use_flag_stats o p flag env since = enabled_if (not (str_eq env "")) (
      query ("stats" ∷ "flag" ∷ o ∷ p ∷ flag ∷ env ∷ since ∷ [])
        (Analytics.flag_stats o p flag env since))

  abbrev pub use_env_stats : String → String → String → String → Query N
  use_env_stats o p env since =
      enabled_if (not (str_eq env ""))
        (query ("stats" ∷ "env" ∷ o ∷ p ∷ env ∷ since ∷ []) (Analytics.env_stats o p env since))
