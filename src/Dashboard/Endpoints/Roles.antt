-- ===== src/Dashboard/Endpoints/Roles.antt =====
-- web/src/api/endpoints/roles.ts
use flag_it.Common.{String, [], ◌∷◌}
use flag_it.Sdk.Json.{Json}
use flag_it.Dashboard.Api.{get, post, unwrapped, path, Call}

module _ {N : Type 0} where
  abbrev pub list : String → Call N
  list o = unwrapped "roles" (get (path ("organizations" ∷ o ∷ "roles" ∷ [])))

  abbrev pub permissions : Call N
  permissions = unwrapped "permissions" (get (path ("permissions" ∷ [])))

  abbrev pub create : String → Json N → Call N
  create o input = post (path ("organizations" ∷ o ∷ "roles" ∷ [])) input
