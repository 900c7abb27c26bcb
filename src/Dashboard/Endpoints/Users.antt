-- ===== src/Dashboard/Endpoints/Users.antt =====
-- web/src/api/endpoints/users.ts
use flag_it.Common.{String, [], ◌∷◌}
use flag_it.Sdk.Json.{Json}
use flag_it.Dashboard.Api.{get, post, patch, delete, unwrapped, path, Call}

module _ {N : Type 0} where
  abbrev pub list : Call N
  list = unwrapped "users" (get (path ("users" ∷ [])))

  abbrev pub create : Json N → Call N
  create input = post (path ("users" ∷ [])) input

  abbrev pub update : String → Json N → Call N
  update id input = patch (path ("users" ∷ id ∷ [])) input

  abbrev pub remove : String → Call N
  remove id = delete (path ("users" ∷ id ∷ []))
