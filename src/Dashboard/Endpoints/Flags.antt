-- ===== src/Dashboard/Endpoints/Flags.antt =====
-- web/src/api/endpoints/flags.ts
use flag_it.Common.{Bool, false, Option, none, some, String, List, [], ◌∷◌, ◌++◌, if◌then◌else◌}
use flag_it.Sdk.Json.{Json, bool, str, arr, nil, cons}
use flag_it.Dashboard.Api.{
  get, put, patch, delete, unwrapped, object, path, with_query, RequestPath, Call, Web, or_blank,
}

-- `CreateFlagInput`
pub record CreateFlagInput (N : Type 0) : Type 0 where
  pub key : String
  pub name : String
  pub description : Option String
  pub client_side_available : Option Bool
  pub temporary : Option Bool
  pub variations : Json N

abbrev flag_base : String → String → List String
flag_base o p = "organizations" ∷ o ∷ "projects" ∷ p ∷ "flags" ∷ []

abbrev config_path : String → String → String → String → RequestPath
config_path o p flag env = path (flag_base o p ++ flag ∷ "environments" ∷ env ∷ [])

abbrev or_false : Option Bool → Bool
or_false none = false
or_false (some b) = b

module _ {N : Type 0} where
  abbrev pub list : String → String → Call N
  list o p = unwrapped "flags" (get (path (flag_base o p)))

  abbrev pub list_in_env : Web → String → String → String → String → Call N
  list_in_env web o p env search = unwrapped "flags" (
      get (
        with_query ("organizations" ∷ o ∷ "projects" ∷ p ∷ "environments" ∷ env ∷ "flags" ∷ [])
          "search" (web.encode_uri_component search)))

  abbrev pub create : String → String → CreateFlagInput N → Call N
  create o p input = put (path (flag_base o p ++ input.key ∷ [])) (
      object (
        ("name", str input.name)
        ∷ ("description", str (or_blank input.description))
        ∷ ("client_side_available", bool (or_false input.client_side_available))
        ∷ ("temporary", bool (or_false input.temporary))
        ∷ ("variations", input.variations)
        ∷ []))

  abbrev pub list_lifecycle : String → String → Call N
  list_lifecycle o p = unwrapped "flags" (get (path (flag_base o p ++ "lifecycle" ∷ [])))

  abbrev pub get_one : String → String → String → Call N
  get_one o p flag = get (path (flag_base o p ++ flag ∷ []))

  abbrev pub remove : String → String → String → Call N
  remove o p flag = delete (path (flag_base o p ++ flag ∷ []))

  abbrev pub get_config : String → String → String → String → Call N
  get_config o p flag env = get (config_path o p flag env)

  abbrev pub toggle : String → String → String → String → Bool → Call N
  toggle o p flag env on = patch (config_path o p flag env) (
      object (
        (
          "instructions",
          arr (cons (object (("kind", str (if on then "turnFlagOn" else "turnFlagOff")) ∷ [])) nil),
        )
        ∷ []))

  abbrev pub patch_config : String → String → String → String → Json N → Call N
  patch_config o p flag env instructions =
      patch (config_path o p flag env) (object (("instructions", instructions) ∷ []))
