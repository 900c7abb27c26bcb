-- ===== src/Dashboard/Config/Laws.antt =====
-- What `loadConfig` leaves.
use flag_it.Common.{
  true, false, Option, none, some, String, str_eq, ◌≡◌, refl, arith, Bool-cases, inl, inr,
}
use flag_it.Sdk.Json.{Json, null, bool, num, str, arr, obj, properties, lookup}
use flag_it.Dashboard.Api.{Web}
use flag_it.Dashboard.Api.Request.{Response, is_ok}
use flag_it.Dashboard.Config.{
  AppConfig, Loaded, loaded, failed, is_environment, safe_parse, load_config, parse_url,
  parse_environment, parse_mocking, made, read_body, keep_parsed,
}

-- The address is not empty and the environment is one of the three.
pub record IsSound (c : AppConfig) : Type 0 where
  pub addressed : str_eq c.api_url "" ≡ false
  pub known : is_environment c.environment ≡ true

-- A configuration was loaded and is kept, and is sound; or loading failed and the variable is as it was.
abbrev pub IsOutcome : Option AppConfig → Loaded × Option AppConfig → Type 0
IsOutcome old (loaded c, new) = IsSound c × (new ≡ some c)
IsOutcome old (failed message, new) = new ≡ old

module _ {N : Type 0} where
  made-IsSound :
      (u e m : Option (Json N)) (c : AppConfig)
      → made (parse_url u) (parse_environment e) (parse_mocking m) ≡ some c
      → IsSound c
  made-IsSound u e m c h = ground arith

  safe_parse-IsSound : (body : Json N) (c : AppConfig) → safe_parse body ≡ some c → IsSound c
  unfolding safe_parse
  safe_parse-IsSound (obj o) c h =
      made-IsSound (lookup "apiUrl" (properties o)) (lookup "environment" (properties o))
        (lookup "enableMocking" (properties o)) c h
  safe_parse-IsSound null c h = cc
  safe_parse-IsSound (bool b) c h = cc
  safe_parse-IsSound (num n) c h = cc
  safe_parse-IsSound (str s) c h = cc
  safe_parse-IsSound (arr items) c h = cc

  module _ (web : Web) (prettify_error : Json N → String) where
    keep_parsed-IsOutcome :
        (body : Json N) (config parsed : Option AppConfig)
        → safe_parse body ≡ parsed
        → IsOutcome config (keep_parsed web prettify_error body parsed config)
    keep_parsed-IsOutcome body config none e = refl
    keep_parsed-IsOutcome body config (some c) e = (safe_parse-IsSound body c e, refl)

    read_body-IsOutcome :
        (payload : Option (Json N)) (config : Option AppConfig)
        → IsOutcome config (read_body web prettify_error payload config)
    read_body-IsOutcome none config = refl
    read_body-IsOutcome (some body) config =
        keep_parsed-IsOutcome body config (safe_parse body) refl

    -- On every response, and without one, `loadConfig` keeps a sound configuration that it returns, or
    -- fails and leaves the configuration alone.
    pub load_config-IsOutcome :
        (response : Option (Response N)) (config : Option AppConfig)
        → IsOutcome config (load_config web prettify_error response config)
    unfolding load_config
    load_config-IsOutcome none config = refl
    load_config-IsOutcome (some response) config = elim (Bool-cases (is_ok response.status)) [
      | inl ok ↦ rw ok (read_body-IsOutcome response.payload config)
      | inr other ↦ rw other refl
    ]
