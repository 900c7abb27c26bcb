-- ===== src/Dashboard/Endpoints/Triggers.antt =====
-- web/src/api/endpoints/triggers.ts
use flag_it.Common.{Bool, String, List, [], ◌∷◌, ◌++◌}
use flag_it.Sdk.Json.{Json, bool}
use flag_it.Dashboard.Api.{get, post, post_empty, delete, unwrapped, object, path, Call}

abbrev base : String → String → List String
base o p = "organizations" ∷ o ∷ "projects" ∷ p ∷ []

module _ {N : Type 0} where
  abbrev pub list : String → String → String → String → Call N
  list o p flag env = unwrapped "triggers" (
      get (record {
        segments = base o p ++ "triggers" ∷ [];
        query = ("flag", flag) ∷ ("env", env) ∷ [];
      }))

  abbrev pub create : String → String → String → String → Json N → Call N
  create o p flag env input =
      post (path (base o p ++ "flags" ∷ flag ∷ "environments" ∷ env ∷ "triggers" ∷ [])) input

  abbrev pub set_enabled : String → String → String → Bool → Call N
  set_enabled o p id enabled =
      post (path (base o p ++ "triggers" ∷ id ∷ "enabled" ∷ []))
        (object (("enabled", bool enabled) ∷ []))

  abbrev pub reset : String → String → String → Call N
  reset o p id = post_empty (path (base o p ++ "triggers" ∷ id ∷ "reset" ∷ []))

  abbrev pub remove : String → String → String → Call N
  remove o p id = delete (path (base o p ++ "triggers" ∷ id ∷ []))
