-- ===== src/Dashboard/Endpoints/Webhooks.antt =====
-- web/src/api/endpoints/webhooks.ts
use flag_it.Common.{Bool, String, List, [], ◌∷◌, ◌++◌}
use flag_it.Sdk.Json.{Json, bool}
use flag_it.Dashboard.Api.{get, post, post_empty, delete, unwrapped, object, path, Call}

abbrev base : String → List String
base o = "organizations" ∷ o ∷ "webhooks" ∷ []

module _ {N : Type 0} where
  abbrev pub list : String → Call N
  list o = unwrapped "webhooks" (get (path (base o)))

  abbrev pub create : String → Json N → Call N
  create o input = post (path (base o)) input

  abbrev pub set_enabled : String → String → Bool → Call N
  set_enabled o id enabled =
      post (path (base o ++ id ∷ "enabled" ∷ [])) (object (("enabled", bool enabled) ∷ []))

  abbrev pub reset : String → String → Call N
  reset o id = post_empty (path (base o ++ id ∷ "reset" ∷ []))

  abbrev pub test : String → String → Call N
  test o id = post_empty (path (base o ++ id ∷ "test" ∷ []))

  abbrev pub remove : String → String → Call N
  remove o id = delete (path (base o ++ id ∷ []))

  abbrev pub deliveries : String → String → Call N
  deliveries o id = unwrapped "deliveries" (get (path (base o ++ id ∷ "deliveries" ∷ [])))
