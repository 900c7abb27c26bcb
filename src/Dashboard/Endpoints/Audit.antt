-- ===== src/Dashboard/Endpoints/Audit.antt =====
-- web/src/api/endpoints/audit.ts
use flag_it.Common.{String, List, [], ◌∷◌, str_eq, if◌then◌else◌}
use flag_it.Dashboard.Api.{get, unwrapped, Call, Web}

-- The parameters: a resource type that is empty is left out.
abbrev parameters : Web → String → List (String × String)
parameters web type = if str_eq type "" then [] else ("resource_type", web.encode_form type) ∷ []

module _ {N : Type 0} where
  abbrev pub list : Web → String → String → Call N
  list web o type =
      unwrapped "entries" (
        get (record { segments = "organizations" ∷ o ∷ "audit" ∷ []; query = parameters web type }))
