-- ===== src/Dashboard/Endpoints/Organizations.antt =====
-- web/src/api/endpoints/organizations.ts
use flag_it.Common.{String, [], ◌∷◌}
use flag_it.Dashboard.Api.{get, delete, unwrapped, path, Call}

module _ {N : Type 0} where
  abbrev pub list : Call N
  list = unwrapped "organizations" (get (path ("organizations" ∷ [])))

  abbrev pub remove : String → Call N
  remove o = delete (path ("organizations" ∷ o ∷ []))
