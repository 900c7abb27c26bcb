-- ===== src/Dashboard/Hooks/Setup.antt =====
-- web/src/features/setup/hooks/useSetup.ts
use flag_it.Common.{false, some, [], ◌∷◌, ◌==◌, if◌then◌else◌}
use flag_it.Sdk.Json.{Json, bool}
use flag_it.Dashboard.Api.{object}
use flag_it.Dashboard.Api.Request.{Failure, api_error, other_error}
use flag_it.Dashboard.Endpoints.Setup
use flag_it.Dashboard.Hooks.{Query, Mutation, infinity, query, set_data, sign_in}
use flag_it.Dashboard.Hooks.Keys
use flag_it.Dashboard.Hooks.Auth.{SignedIn}

abbrev pub setup_failure : Failure → Failure
setup_failure (api_error status url message) =
    if status == 409
    then other_error "Setup has already been completed on this install."
    else api_error status url message
setup_failure (other_error message) = other_error message

module _ {N : Type 0} where
  abbrev pub use_setup_status : Query N
  use_setup_status = record (query Keys.setup_status Setup.status) {
    stale_time = some infinity;
    retry = some false;
  }

  abbrev pub use_complete_setup : Mutation (Json N) (SignedIn N) N
  use_complete_setup = record {
    mutation_fn = λ input. Setup.complete input;
    translate = setup_failure;
    on_success = λ result _.
        sign_in result.token
        ∷ set_data Keys.me result.user
        ∷ set_data Keys.setup_status (object (("needs_setup", bool false) ∷ []))
        ∷ [];
  }
