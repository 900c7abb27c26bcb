-- ===== src/Dashboard/Endpoints/ScheduledChanges.antt =====
-- web/src/api/endpoints/scheduledChanges.ts
use flag_it.Common.{Option, none, some, String, List, [], ◌∷◌, ◌++◌, str_eq, if◌then◌else◌}
use flag_it.Sdk.Json.{Json}
use flag_it.Dashboard.Api.{get, post, post_empty, unwrapped, path, Call, Web}

abbrev base : String → String → List String
base o p = "organizations" ∷ o ∷ "projects" ∷ p ∷ []

pub record Filters : Type 0 where
  pub status : Option String
  pub flag : Option String
  pub env : Option String

-- A filter that is undefined or empty is left out.
abbrev filter_query : Web → String → Option String → List (String × String)
filter_query web name none = []
filter_query web name (some value) =
    if str_eq value "" then [] else (name, web.encode_form value) ∷ []

module _ {N : Type 0} where
  abbrev pub list : Web → String → String → Filters → Call N
  list web o p filters = unwrapped "scheduled_changes" (
      get (record {
        segments = base o p ++ "scheduled-changes" ∷ [];
        query =
            filter_query web "status" filters.status
            ++ filter_query web "flag" filters.flag
            ++ filter_query web "env" filters.env;
      }))

  abbrev pub create : String → String → String → String → Json N → Call N
  create o p flag env input =
      post (path (base o p ++ "flags" ∷ flag ∷ "environments" ∷ env ∷ "scheduled-changes" ∷ []))
        input

  abbrev pub cancel : String → String → String → Call N
  cancel o p id = post_empty (path (base o p ++ "scheduled-changes" ∷ id ∷ "cancel" ∷ []))
