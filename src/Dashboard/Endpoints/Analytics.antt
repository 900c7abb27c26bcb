-- ===== src/Dashboard/Endpoints/Analytics.antt =====
-- web/src/api/endpoints/analytics.ts
use flag_it.Common.{String, List, [], ◌∷◌, ◌++◌}
use flag_it.Dashboard.Api.{get, with_query, Call}

abbrev base : String → String → List String
base o p = "organizations" ∷ o ∷ "projects" ∷ p ∷ []

module _ {N : Type 0} where
  abbrev pub flag_stats : String → String → String → String → String → Call N
  flag_stats o p flag env since =
      get (
        with_query (base o p ++ "flags" ∷ flag ∷ "environments" ∷ env ∷ "stats" ∷ []) "since" since)

  abbrev pub env_stats : String → String → String → String → Call N
  env_stats o p env since =
      get (with_query (base o p ++ "environments" ∷ env ∷ "stats" ∷ []) "since" since)
