-- ===== src/Dashboard/Hooks/Auth.antt =====
-- web/src/features/auth/hooks/useAuth.ts
use flag_it.Common.{Bool, false, some, String, List, [], ◌∷◌, ◌==◌, if◌then◌else◌}
use flag_it.Sdk.Json.{Json}
use flag_it.Dashboard.Api.Request.{Failure, api_error, other_error}
use flag_it.Dashboard.Endpoints.Auth
use flag_it.Dashboard.Hooks.{Query, Effect, Mutation, query, set_data, sign_in, sign_out, clear}
use flag_it.Dashboard.Hooks.Keys

-- `Session`, and what the dashboard reads of a `SetupResult`.
pub record SignedIn (N : Type 0) : Type 0 where
  pub token : String
  pub user : Json N

abbrev pub login_failure : Failure → Failure
login_failure (api_error status url message) =
    if status == 401 then other_error "Invalid email or password." else api_error status url message
login_failure (other_error message) = other_error message

module _ {N : Type 0} where
  abbrev pub use_me : Bool → Query N
  use_me authenticated = record (query Keys.me Auth.me) {
    enabled = authenticated;
    retry = some false;
  }

  abbrev pub use_login : Mutation (Json N) (SignedIn N) N
  use_login = record {
    mutation_fn = λ input. Auth.login input;
    translate = login_failure;
    on_success = λ session _. sign_in session.token ∷ set_data Keys.me session.user ∷ [];
  }

  abbrev pub use_logout : List (Effect N)
  use_logout = sign_out ∷ clear ∷ []
