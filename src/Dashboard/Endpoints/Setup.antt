-- ===== src/Dashboard/Endpoints/Setup.antt =====
-- web/src/api/endpoints/setup.ts
use flag_it.Common.{[], ◌∷◌}
use flag_it.Sdk.Json.{Json}
use flag_it.Dashboard.Api.{get, post, path, Call}

module _ {N : Type 0} where
  abbrev pub status : Call N
  status = get (path ("setup" ∷ []))

  abbrev pub complete : Json N → Call N
  complete input = post (path ("setup" ∷ [])) input
