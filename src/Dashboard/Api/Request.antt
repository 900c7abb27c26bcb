-- ===== src/Dashboard/Api/Request.antt =====
-- `request` of web/src/api/client.ts, and what an endpoint makes of its result. The request is
-- `fetch`, a function of the browser: none is a rejection. A body of a response is none where
-- `json()` rejects.
use flag_it.Common.{
  ℕ, Bool, Option, none, some, String, List, [], ◌∷◌, ◌++◌, ◌&&◌, leb, ltb, ◌==◌, str_eq,
  if◌then◌else◌,
}
use flag_it.Sdk.Json.{Json, null, arr, obj, nil, properties, lookup, spread}
use flag_it.Dashboard.Api.{Web, RequestPath, Call, Then, whole, list_of, member_of, ◌<>◌}

-- What is handed to `fetch`.
pub record Sent (N : Type 0) : Type 0 where
  pub url : String
  pub method : String
  pub headers : List (String × String)
  pub body : Option (Json N)

pub record Response (N : Type 0) : Type 0 where
  pub status : ℕ
  pub payload : Option (Json N)

-- An `ApiError`, or an error thrown by something else.
pub data Failure : Type 0 where
  api_error : ℕ → String → String → Failure
  other_error : String → Failure

-- The value of a promise: none is `undefined`.
pub data Outcome (N : Type 0) : Type 0 where
  resolved : Option (Json N) → Outcome N
  rejected : Failure → Outcome N

abbrev pub join_segments : List String → String
join_segments [] = ""
join_segments (segment ∷ segments) = "/" <> segment <> join_segments segments

abbrev pub join_query : List (String × String) → String
join_query [] = ""
join_query ((k, v) ∷ []) = k <> "=" <> v
join_query ((k, v) ∷ p ∷ query) = k <> "=" <> v <> "&" <> join_query (p ∷ query)

abbrev pub query_text : List (String × String) → String
query_text [] = ""
query_text (p ∷ query) = "?" <> join_query (p ∷ query)

-- The path of a call as text.
unfoldable pub path_text : RequestPath → String
path_text path = join_segments path.segments <> query_text path.query

abbrev pub content_type : {N : Type 0} → Option (Json N) → List (String × String)
content_type none = []
content_type (some body) = ("Content-Type", "application/json") ∷ []

-- An empty token is falsy.
abbrev pub authorization : Option String → List (String × String)
authorization none = []
authorization (some token) =
    if str_eq token "" then [] else ("Authorization", "Bearer " <> token) ∷ []

-- `response.ok`
abbrev pub is_ok : ℕ → Bool
is_ok status = leb 200 status && ltb status 300

module _ {N : Type 0} where
  -- The headers of a request, the caller's last, so that they win.
  unfoldable pub headers_of :
      Option (Json N) → Option String → List (String × String) → List (String × String)
  headers_of body token headers = spread (content_type body ++ authorization token) headers

  -- Reading a property of `undefined` or of null throws; other values have no such property.
  abbrev pub property : String → Option (Json N) → Option (Option (Json N))
  property k none = none
  property k (some null) = none
  property k (some (obj o)) = some (lookup k (properties o))
  property k (some _) = some none

  abbrev pub or_empty_list : Option (Json N) → Json N
  or_empty_list none = arr nil
  or_empty_list (some null) = arr nil
  or_empty_list (some v) = v

  -- What `.then` makes of the resolved value.
  unfoldable pub unwrapped_value : Then → Option (Json N) → Outcome N
  unwrapped_value whole r = resolved r
  unwrapped_value (list_of k) r = elim (property k r) [
    | none ↦ rejected (other_error "TypeError")
    | some v ↦ resolved (some (or_empty_list v))
  ]
  unwrapped_value (member_of k) r = elim (property k r) [
    | none ↦ rejected (other_error "TypeError")
    | some v ↦ resolved v
  ]

  module _ (web : Web) (fetch : Sent N → Option (Response N)) where
    -- The request that a call is sent as: none if `getConfig()` throws.
    unfoldable pub sent_as :
        Option String → Option String → List (String × String) → Call N → Option (Sent N)
    unfolding headers_of path_text
    sent_as none token headers call = none
    sent_as (some api_url) token headers call = some (record {
      url = api_url <> path_text call.path;
      method = call.method;
      headers = headers_of call.body token headers;
      body = call.body;
    })

    abbrev pub read_response : String → RequestPath → Response N → Outcome N
    read_response url path response =
        if is_ok response.status
        then (if response.status == 204 then resolved none else elim response.payload [
          | none ↦ rejected (other_error "SyntaxError")
          | some v ↦ resolved (some v)
        ])
        else rejected (
            api_error response.status url
              ("Request failed: " <> web.decimal response.status <> " " <> path_text path))

    abbrev pub send : RequestPath → Option (Sent N) → Outcome N
    send path none = rejected (other_error "getConfig() called before loadConfig() resolved.")
    send path (some sent) = elim (fetch sent) [
      | none ↦ rejected (other_error "TypeError")
      | some response ↦ read_response sent.url path response
    ]

    -- `request`, of the options of a call and of further headers.
    unfoldable pub request :
        Option String → Option String → List (String × String) → Call N → Outcome N
    unfolding sent_as
    request api_url token headers call = send call.path (sent_as api_url token headers call)

    -- An endpoint: the request, and what it makes of the result.
    unfoldable pub run : Option String → Option String → Call N → Outcome N
    unfolding request unwrapped_value
    run api_url token call = elim (request api_url token [] call) [
      | rejected failure ↦ rejected failure
      | resolved r ↦ unwrapped_value call.unwrap r
    ]
