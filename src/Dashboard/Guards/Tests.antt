-- ===== src/Dashboard/Guards/Tests.antt =====
-- The guards and the sessions at concrete states.
use flag_it.Common.{ℕ, ◌≡◌, Option, none, some, String, [], ◌∷◌, false}
use flag_it.Sdk.Json.{bool, str}
use flag_it.Dashboard.Api.{object}
use flag_it.Dashboard.Hooks.Auth.{SignedIn}
use flag_it.Dashboard.Session.{Storage, Session}
use flag_it.Dashboard.Coherence.Client.{fresh}
use flag_it.Dashboard.Coherence.Memory.{memory}
use flag_it.Dashboard.Guards.{settled, login_page, follow}
use flag_it.Dashboard.Guards.Boot.{follow-destination}
use flag_it.Dashboard.Guards.Sessions.{App}

abbrev one_item : Storage
one_item = record {
  State = Option String;
  get_item = λ s. some s;
  set_item = λ s token. some (some token);
  remove_item = λ s. some none;
}

abbrev signed_out : Session one_item
signed_out = record {
  token = none;
  is_authenticated = false;
  holder = record { cached = some none; storage = none };
}

-- The status is known, and the setup is done.
abbrev configured : App {N = ℕ} one_item memory
configured = record {
  session = signed_out;
  cache = λ k. fresh (object (("needs_setup", bool false) ∷ []));
}

abbrev signed_in : SignedIn ℕ
signed_in = record { token = "abc"; user = str "ada" }

follow-destination_example : follow 1 (settled (some false)) false "/users" ≡ login_page
follow-destination_example = follow-destination 0 (settled (some false)) false "/users"
