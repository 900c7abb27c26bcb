-- ===== src/Dashboard/Endpoints/Segments.antt =====
-- web/src/api/endpoints/segments.ts
use flag_it.Common.{String, List, [], ◌∷◌, ◌++◌}
use flag_it.Sdk.Json.{Json}
use flag_it.Dashboard.Api.{get, put, delete, unwrapped, path, with_query, Call, Web}

abbrev seg_base : String → String → List String
seg_base o p = "organizations" ∷ o ∷ "projects" ∷ p ∷ "segments" ∷ []

module _ {N : Type 0} where
  abbrev pub list : Web → String → String → String → Call N
  list web o p search =
      unwrapped "segments"
        (get (with_query (seg_base o p) "search" (web.encode_uri_component search)))

  abbrev pub get_one : String → String → String → Call N
  get_one o p segment = get (path (seg_base o p ++ segment ∷ []))

  abbrev pub save : String → String → String → Json N → Call N
  save o p segment body = put (path (seg_base o p ++ segment ∷ [])) body

  abbrev pub remove : String → String → String → Call N
  remove o p segment = delete (path (seg_base o p ++ segment ∷ []))
