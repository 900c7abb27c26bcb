-- ===== src/Dashboard/Api.antt =====
-- The calls of the network, web/src/api: what the functions of web/src/api/endpoints make, and the
-- methods of `api` in web/src/api/client.ts. A call is a value here; Api/Request sends it.
pub mod Request
pub mod Paths
mod Tests
use Prim.Native.String.{◌++◌ as str_append}
use flag_it.Common.{ℕ, Option, none, some, String, List, [], ◌∷◌, ◌++◌, not, str_eq}
use flag_it.Sdk.Json.{Json, null, bool, str, arr, obj, nil, from_list, lookup, properties}

infixr 60 ◌<>◌
abbrev pub ◌<>◌ : String → String → String
s <> t = str_append s t

-- What the browser provides: `encodeURIComponent`, the encoding of `URLSearchParams`, and the text
-- of a number in a template.
pub record Web : Type 0 where
  pub encode_uri_component : String → String
  pub encode_form : String → String
  pub decimal : ℕ → String

-- A path, by the texts between its slashes and by its query string, a list of names and of values
-- in the form they are sent in.
pub record RequestPath : Type 0 where
  pub segments : List String
  pub query : List (String × String)

-- What is made of the response: all of it, `r[k] ?? []`, or `r[k]`.
pub data Then : Type 0 where
  whole : Then
  list_of : String → Then
  member_of : String → Then

pub record Call (N : Type 0) : Type 0 where
  pub method : String
  pub path : RequestPath
  pub body : Option (Json N)
  pub unwrap : Then

abbrev pub path : List String → RequestPath
path segments = record { segments = segments; query = [] }

abbrev pub with_query : List String → String → String → RequestPath
with_query segments name value = record { segments = segments; query = (name, value) ∷ [] }

-- `text ?? ''`
abbrev pub or_blank : Option String → String
or_blank none = ""
or_blank (some text) = text

module _ {N : Type 0} where
  abbrev pub get : RequestPath → Call N
  get route = record { method = "GET"; path = route; body = none; unwrap = whole }

  abbrev pub post : RequestPath → Json N → Call N
  post route body = record { method = "POST"; path = route; body = some body; unwrap = whole }

  -- `api.post` without a body.
  abbrev pub post_empty : RequestPath → Call N
  post_empty route = record { method = "POST"; path = route; body = none; unwrap = whole }

  abbrev pub put : RequestPath → Json N → Call N
  put route body = record { method = "PUT"; path = route; body = some body; unwrap = whole }

  abbrev pub patch : RequestPath → Json N → Call N
  patch route body = record { method = "PATCH"; path = route; body = some body; unwrap = whole }

  abbrev pub delete : RequestPath → Call N
  delete route = record { method = "DELETE"; path = route; body = none; unwrap = whole }

  -- `.then((r) => r[k] ?? [])`
  abbrev pub unwrapped : String → Call N → Call N
  unwrapped k call = record call { unwrap = list_of k }

  -- `.then((r) => r[k])`
  abbrev pub member : String → Call N → Call N
  member k call = record call { unwrap = member_of k }

  abbrev pub object : List (String × Json N) → Json N
  object members = obj (from_list members)
