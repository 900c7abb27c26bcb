-- ===== src/Sdk/Client.antt =====
-- `createClient` of sdk/javascript/src/index.ts, but for the stream: one HTTP call for each
-- evaluation. `fetch` is a parameter, since it is the network: it gives a reply to each call.
pub mod Variations
pub mod Url
use flag_it.Common.{
  ℕ, Bool, true, false, Option, none, some, String, List, [], ◌∷◌, ◌++◌, Text, codes, leb, ◌==◌,
  ◌&&◌, ◌||◌, not, if◌then◌else◌,
}
use flag_it.Sdk.Json.{
  Json, null, bool, num, str, arr, obj, Fields, end, field, properties, lookup, from_list,
}
use flag_it.Sdk.Context.{EvalContext}

-- What `fetch` is called with. A body is the value that `JSON.stringify` is given.
pub record Call (N : Type 0) : Type 0 where
  pub method : String
  pub url : Text
  pub headers : List (String × String)
  pub body : Option (Json N)

-- What the promise of `fetch` gives: it is rejected, or there is a response with its status, and
-- the value of `res.json()` if the body is JSON.
pub data Reply (N : Type 0) : Type 0 where
  rejected : Reply N
  response : ℕ → Option (Json N) → Reply N

-- What can be thrown: the network's error, `FlagItError`, the SyntaxError of `res.json()`, and the
-- TypeError of a property of `undefined` or `null`.
pub data Thrown : Type 0 where
  network_error : Thrown
  flag_it_error : ℕ → Text → Thrown
  syntax_error : Thrown
  type_error : Thrown

pub data Outcome {ℓ} (A : Type ℓ) : Type ℓ where
  returned : A → Outcome A
  thrown : Thrown → Outcome A

infixl 5 ◌>>=◌
abbrev pub ◌>>=◌ {ℓ κ} : {A : Type ℓ} {B : Type κ} → Outcome A → (A → Outcome B) → Outcome B
returned a >>= f = f a
thrown e >>= f = thrown e

-- `options.baseUrl.replace(/\/+$/, '')`
unfoldable pub strip_slashes : Text → Text
strip_slashes [] = []
strip_slashes (c ∷ s) = elim (strip_slashes s) [
  | [] ↦ if c == b'/' then [] else c ∷ []
  | d ∷ r ↦ c ∷ d ∷ r
]

-- `res.ok`
abbrev pub is_ok : ℕ → Bool
is_ok status = leb 200 status && leb status 299

-- `v[name]` for a value that the types say is an object: a property of `undefined` or of `null`
-- throws, and a value that is no object has none of the names that the SDK reads.
unfoldable pub get_property : {N : Type 0} → Option (Json N) → String → Outcome (Option (Json N))
unfolding lookup
get_property none name = thrown type_error
get_property (some null) name = thrown type_error
get_property (some (obj o)) name = returned (lookup name (properties o))
get_property (some _) name = returned none

abbrev pub eval_path : Text
eval_path = codes "/api/v1/eval"

abbrev pub eval_all_path : Text
eval_all_path = codes "/api/v1/eval/all"

abbrev events_path : Text
events_path = codes "/api/v1/events"

-- The answer to one call, `none` being `undefined`.
unfoldable pub read_reply : {N : Type 0} → Text → Reply N → Outcome (Option (Json N))
read_reply path rejected = thrown network_error
read_reply path (response status json) =
    if not (is_ok status)
    then thrown (flag_it_error status path)
    else if status == 202 || status == 204
    then returned none
    else elim json [ none ↦ thrown syntax_error | some v ↦ returned (some v) ]

module _ {N : Type 0} where
  abbrev json_headers : Option (Json N) → List (String × String)
  json_headers none = []
  json_headers (some body) = ("Content-Type", "application/json") ∷ []

  abbrev pub eval_body : String → EvalContext N → Json N
  eval_body flag_key ctx =
      obj (field "flag_key" (str flag_key) (field "context" (obj (from_list ctx)) end))

  -- `catch { return undefined }`
  abbrev pub or_undefined : Outcome (Option (Json N)) → Option (Json N)
  or_undefined (returned v) = v
  or_undefined (thrown e) = none

  abbrev pub bool_or : Option (Json N) → Bool → Bool
  bool_or (some (bool b)) fallback = b
  bool_or _ fallback = fallback

  abbrev pub string_or : Option (Json N) → String → String
  string_or (some (str s)) fallback = s
  string_or _ fallback = fallback

  abbrev pub number_or : Option (Json N) → N → N
  number_or (some (num n)) fallback = n
  number_or _ fallback = fallback

  abbrev pub value_or : Option (Json N) → Json N → Json N
  value_or none fallback = fallback
  value_or (some v) fallback = v

  -- `out.flags ?? {}`
  abbrev pub or_empty : Option (Json N) → Json N
  or_empty none = obj end
  or_empty (some null) = obj end
  or_empty (some flags) = flags

module _ {N : Type 0} (fetch : Call N → Reply N) (base_url : Text) (sdk_key : String) where
  abbrev pub call : String → Text → Option (Json N) → Call N
  call method path body = record {
    method = method;
    url = strip_slashes base_url ++ path;
    headers = ("X-SDK-Key", sdk_key) ∷ json_headers body;
    body = body;
  }

  unfoldable pub request : String → Text → Option (Json N) → Outcome (Option (Json N))
  unfolding read_reply
  request method path body = read_reply path (fetch (call method path body))

  unfoldable pub evaluate : String → EvalContext N → Outcome (Option (Json N))
  unfolding request
  evaluate flag_key ctx = request "POST" eval_path (some (eval_body flag_key ctx))

  unfoldable pub safe_value : String → EvalContext N → Option (Json N)
  unfolding evaluate get_property
  safe_value flag_key ctx =
      or_undefined (do evaluation ← evaluate flag_key ctx; get_property evaluation "value")

  unfoldable pub bool_variation : String → EvalContext N → Bool → Bool
  unfolding safe_value
  bool_variation flag_key ctx fallback = bool_or (safe_value flag_key ctx) fallback

  unfoldable pub string_variation : String → EvalContext N → String → String
  unfolding safe_value
  string_variation flag_key ctx fallback = string_or (safe_value flag_key ctx) fallback

  unfoldable pub number_variation : String → EvalContext N → N → N
  unfolding safe_value
  number_variation flag_key ctx fallback = number_or (safe_value flag_key ctx) fallback

  unfoldable pub variation : String → EvalContext N → Json N → Json N
  unfolding safe_value
  variation flag_key ctx fallback = value_or (safe_value flag_key ctx) fallback

  unfoldable pub all_flags : EvalContext N → Outcome (Json N)
  unfolding request get_property
  all_flags ctx = do
    out ← request "POST" eval_all_path (some (obj (field "context" (obj (from_list ctx)) end)))
    flags ← get_property out "flags"
    returned (or_empty flags)

  unfoldable pub send_events : Json N → Outcome (Unit {0})
  unfolding request
  send_events summary = do _ ← request "POST" events_path (some summary); returned tt
