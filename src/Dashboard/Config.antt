-- ===== src/Dashboard/Config.antt =====
-- The configuration, web/src/config/env.ts. What zod makes of the JSON that is fetched is written out
-- for the three fields of the schema; the text of its message is a parameter.
pub mod Laws
mod Tests
use flag_it.Common.{ℕ, Bool, true, false, Option, none, some, String, ◌||◌, str_eq, if◌then◌else◌}
use flag_it.Sdk.Json.{Json, null, bool, num, str, arr, obj, properties, lookup}
use flag_it.Dashboard.Api.{◌<>◌, Web}
use flag_it.Dashboard.Api.Request.{Response, is_ok}

pub record AppConfig : Type 0 where
  pub api_url : String
  pub environment : String
  pub enable_mocking : Bool

-- What a promise ends in.
pub data Loaded : Type 0 where
  loaded : AppConfig → Loaded
  failed : String → Loaded

abbrev pub is_environment : String → Bool
is_environment s = str_eq s "development" || (str_eq s "staging" || str_eq s "production")

abbrev pub made : Option String → Option String → Option Bool → Option AppConfig
made (some api_url) (some environment) (some enable_mocking) =
    some (record { api_url = api_url; environment = environment; enable_mocking = enable_mocking })
made _ _ _ = none

module _ {N : Type 0} where
  -- `z.string().min(1)`
  abbrev pub parse_url : Option (Json N) → Option String
  parse_url (some (str s)) = if str_eq s "" then none else some s
  parse_url _ = none

  -- `z.enum([...])`
  abbrev pub parse_environment : Option (Json N) → Option String
  parse_environment (some (str s)) = if is_environment s then some s else none
  parse_environment _ = none

  -- `z.boolean().default(false)`
  abbrev pub parse_mocking : Option (Json N) → Option Bool
  parse_mocking none = some false
  parse_mocking (some (bool b)) = some b
  parse_mocking _ = none

  -- `configSchema.safeParse`
  unfoldable pub safe_parse : Json N → Option AppConfig
  safe_parse (obj o) =
      let fields = properties o in
      made (parse_url (lookup "apiUrl" fields)) (parse_environment (lookup "environment" fields))
        (parse_mocking (lookup "enableMocking" fields))
  safe_parse _ = none

  module _ (web : Web) (prettify_error : Json N → String) where
    abbrev pub keep_parsed :
        Json N → Option AppConfig → Option AppConfig → Loaded × Option AppConfig
    keep_parsed body none config =
        (failed ("Invalid /config.json:\n" <> prettify_error body), config)
    keep_parsed body (some parsed) config = (loaded parsed, some parsed)

    abbrev pub read_body : Option (Json N) → Option AppConfig → Loaded × Option AppConfig
    read_body none config = (failed "SyntaxError", config)
    read_body (some body) config = keep_parsed body (safe_parse body) config

    -- `loadConfig`, of the response to `/config.json`, where none is a request that fails, and of the
    -- variable `config`.
    unfoldable pub load_config : Option (Response N) → Option AppConfig → Loaded × Option AppConfig
    unfolding safe_parse
    load_config none config = (failed "TypeError", config)
    load_config (some response) config =
        if is_ok response.status then read_body response.payload config else (
          failed (
              "Could not load /config.json (HTTP "
              <> web.decimal response.status
              <> "). The deployment must serve a config.json — see config.example.json."),
          config,
        )

-- `getConfig`
abbrev pub get_config : Option AppConfig → Loaded
get_config none = failed "getConfig() called before loadConfig() resolved."
get_config (some config) = loaded config

-- `setConfig`
abbrev pub set_config : AppConfig → Option AppConfig → Option AppConfig
set_config override config = some override
