-- ===== src/Dashboard/Endpoints/Projects.antt =====
-- web/src/api/endpoints/projects.ts
use flag_it.Common.{String, [], ◌∷◌}
use flag_it.Sdk.Json.{Json, str}
use flag_it.Dashboard.Api.{get, post, patch, delete, unwrapped, member, object, path, Call}

module _ {N : Type 0} where
  abbrev pub list : String → Call N
  list o = unwrapped "projects" (get (path ("organizations" ∷ o ∷ "projects" ∷ [])))

  abbrev pub get_one : String → String → Call N
  get_one o p = get (path ("organizations" ∷ o ∷ "projects" ∷ p ∷ []))

  abbrev pub create : String → Json N → Call N
  create o input = member "project" (post (path ("organizations" ∷ o ∷ "projects" ∷ [])) input)

  abbrev pub update : String → String → String → Call N
  update o p name =
      patch (path ("organizations" ∷ o ∷ "projects" ∷ p ∷ [])) (object (("name", str name) ∷ []))

  abbrev pub remove : String → String → Call N
  remove o p = delete (path ("organizations" ∷ o ∷ "projects" ∷ p ∷ []))
