-- ===== src/Dashboard/Endpoints/Auth.antt =====
-- web/src/api/endpoints/auth.ts
use flag_it.Common.{[], ◌∷◌}
use flag_it.Sdk.Json.{Json}
use flag_it.Dashboard.Api.{get, post, path, Call}

module _ {N : Type 0} where
  abbrev pub login : Json N → Call N
  login input = post (path ("auth" ∷ "login" ∷ [])) input

  abbrev pub me : Call N
  me = get (path ("me" ∷ []))
