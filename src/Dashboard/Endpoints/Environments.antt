-- ===== src/Dashboard/Endpoints/Environments.antt =====
-- web/src/api/endpoints/environments.ts
use flag_it.Common.{String, List, [], ◌∷◌}
use flag_it.Sdk.Json.{Json}
use flag_it.Dashboard.Api.{get, post, unwrapped, path, with_query, Call, Web}

abbrev env_base : String → String → List String
env_base o p = "organizations" ∷ o ∷ "projects" ∷ p ∷ "environments" ∷ []

module _ {N : Type 0} where
  abbrev pub list : Web → String → String → String → Call N
  list web o p search =
      unwrapped "environments"
        (get (with_query (env_base o p) "search" (web.encode_uri_component search)))

  abbrev pub create : String → String → Json N → Call N
  create o p input = post (path (env_base o p)) input
