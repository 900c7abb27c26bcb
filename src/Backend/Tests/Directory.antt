-- ===== src/Backend/Tests/Directory.antt =====
-- An install that is set up, and its SDK keys.
use flag_it.Common.{true, none, some, List, [], ◌∷◌, ◌≡◌, refl, arith, All}
use flag_it.Backend.Store.{failure}
use flag_it.Backend.Directory.{
  Directory, DirectoryCall, SetupInput, completes_setup, creates_sdk_key, creates_project,
  revokes_sdk_key, server, client, serve_directory, serve_all, complete_setup, post_sdk_key,
}
use flag_it.Backend.Directory.Keys.{OtherThan, serve_all-revokes_sdk_key}
use flag_it.Backend.Tests.{id_text, id_text-injective}

abbrev empty : Directory
empty = record {
  needs_setup = true;
  organizations = [];
  projects = [];
  environments = [];
  roles = [];
  members = [];
  sdk_keys = [];
  issued = 0;
}

abbrev input : SetupInput
input = record {
  email = "ada@example.com";
  password = "twelve letters";
  full_name = none;
  organization_slug = some "acme";
  organization_name = none;
}

-- The setup, and a key of the id that is handed out next.
abbrev with_key : Directory
with_key = serve_all id_text (completes_setup input ∷ creates_sdk_key server none ∷ []) empty

abbrev calls : List DirectoryCall
calls = creates_sdk_key client (some "CI") ∷ creates_project "shop" "Shop" ∷ []

with_key_test : with_key.issued ≡ 3
unfolding serve_all complete_setup post_sdk_key
with_key_test = refl

serve_all-revokes_sdk_key_example :
    let after =
      serve_all id_text calls (serve_directory id_text (revokes_sdk_key (id_text 1)) with_key).0 in
    All (OtherThan (id_text 1)) after.sdk_keys
    × (serve_directory id_text (completes_setup input) after
        ≡ (after, failure 409 "setup already complete"))
unfolding serve_all complete_setup post_sdk_key
serve_all-revokes_sdk_key_example =
    serve_all-revokes_sdk_key id_text id_text-injective 1 calls with_key input (omega arith) refl
