-- ===== src/Dashboard/Endpoints/Contexts.antt =====
-- web/src/api/endpoints/contexts.ts
use flag_it.Common.{String, List, [], ◌∷◌, ◌++◌}
use flag_it.Dashboard.Api.{get, unwrapped, path, with_query, Call, Web}

abbrev ctx_base : String → String → String → List String
ctx_base o p env = "organizations" ∷ o ∷ "projects" ∷ p ∷ "environments" ∷ env ∷ "contexts" ∷ []

module _ {N : Type 0} where
  abbrev pub list : Web → String → String → String → String → Call N
  list web o p env search =
      unwrapped "contexts"
        (get (with_query (ctx_base o p env) "search" (web.encode_uri_component search)))

  abbrev pub get_one : Web → String → String → String → String → String → Call N
  get_one web o p env kind key =
      get (
        path
          (ctx_base o p env ++ web.encode_uri_component kind ∷ web.encode_uri_component key ∷ []))
