-- ===== src/Dashboard/Endpoints/Changes.antt =====
-- web/src/api/endpoints/changes.ts
use flag_it.Common.{Option, none, some, String, List, [], ◌∷◌, ◌++◌}
use flag_it.Sdk.Json.{Json, str}
use flag_it.Dashboard.Api.{get, post, unwrapped, object, path, Call, or_blank}

abbrev base : String → String → List String
base o p = "organizations" ∷ o ∷ "projects" ∷ p ∷ []

-- A status that is undefined is left out.
abbrev status_query : Option String → List (String × String)
status_query none = []
status_query (some status) = ("status", status) ∷ []

module _ {N : Type 0} where
  abbrev pub list : String → String → Option String → Call N
  list o p status =
      unwrapped "changes"
        (get (record { segments = base o p ++ "changes" ∷ []; query = status_query status }))

  abbrev pub create : String → String → String → String → Json N → Call N
  create o p flag env input =
      post (path (base o p ++ "flags" ∷ flag ∷ "environments" ∷ env ∷ "changes" ∷ [])) input

  abbrev pub approve : String → String → String → Option String → Call N
  approve o p id comment =
      post (path (base o p ++ "changes" ∷ id ∷ "approve" ∷ []))
        (object (("comment", str (or_blank comment)) ∷ []))

  abbrev pub reject : String → String → String → Option String → Call N
  reject o p id comment =
      post (path (base o p ++ "changes" ∷ id ∷ "reject" ∷ []))
        (object (("comment", str (or_blank comment)) ∷ []))
