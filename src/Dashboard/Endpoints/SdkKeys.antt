-- ===== src/Dashboard/Endpoints/SdkKeys.antt =====
-- web/src/api/endpoints/sdkKeys.ts
use flag_it.Common.{String, List, [], ◌∷◌, ◌++◌}
use flag_it.Sdk.Json.{Json}
use flag_it.Dashboard.Api.{get, post, delete, unwrapped, path, Call}

abbrev key_base : String → String → String → List String
key_base o p env = "organizations" ∷ o ∷ "projects" ∷ p ∷ "environments" ∷ env ∷ "sdk-keys" ∷ []

module _ {N : Type 0} where
  abbrev pub list : String → String → String → Call N
  list o p env = unwrapped "sdk_keys" (get (path (key_base o p env)))

  abbrev pub create : String → String → String → Json N → Call N
  create o p env input = post (path (key_base o p env)) input

  abbrev pub revoke : String → String → String → String → Call N
  revoke o p env key_id = delete (path (key_base o p env ++ key_id ∷ []))
