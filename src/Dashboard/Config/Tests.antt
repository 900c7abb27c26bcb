-- ===== src/Dashboard/Config/Tests.antt =====
-- Loading a configuration.
use flag_it.Common.{ℕ, ◌≡◌, refl, none, some, [], ◌∷◌, false}
use flag_it.Sdk.Json.{str, lookup}
use flag_it.Dashboard.Api.{Web, object}
use flag_it.Dashboard.Api.Request.{Response}
use flag_it.Dashboard.Config.{load_config, loaded}
use flag_it.Dashboard.Config.Laws.{IsOutcome, load_config-IsOutcome}

abbrev web : Web
web = record { encode_uri_component = λ s. s; encode_form = λ s. s; decimal = λ n. "404" }

abbrev answer : Response ℕ
answer = record {
  status = 200;
  payload = some (object (("apiUrl", str "/api") ∷ ("environment", str "staging") ∷ []));
}

load_config-IsOutcome_example : IsOutcome none (load_config web (λ body. "bad") (some answer) none)
load_config-IsOutcome_example = load_config-IsOutcome web (λ body. "bad") (some answer) none

load_test :
    (load_config web (λ body. "bad") (some answer) none).0
    ≡ loaded (record { api_url = "/api"; environment = "staging"; enable_mocking = false })
unfolding load_config lookup
load_test = refl
