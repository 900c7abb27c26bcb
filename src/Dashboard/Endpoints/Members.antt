-- ===== src/Dashboard/Endpoints/Members.antt =====
-- web/src/api/endpoints/members.ts
use flag_it.Common.{String, [], ◌∷◌}
use flag_it.Sdk.Json.{Json}
use flag_it.Dashboard.Api.{get, post, unwrapped, path, Call}

module _ {N : Type 0} where
  abbrev pub list : String → Call N
  list o = unwrapped "members" (get (path ("organizations" ∷ o ∷ "members" ∷ [])))

  abbrev pub add : String → Json N → Call N
  add o input = post (path ("organizations" ∷ o ∷ "members" ∷ [])) input

  abbrev pub grant_project_role : String → String → Json N → Call N
  grant_project_role o p input =
      post (path ("organizations" ∷ o ∷ "projects" ∷ p ∷ "roles" ∷ [])) input
