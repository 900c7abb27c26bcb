-- ===== src/Dashboard/Coherence/Tests.antt =====
-- A server that counts its users and keeps configurations, and runs of the dashboard against it.
use flag_it.Common.{
  Bool, String, str_eq, ◌&&◌, if◌then◌else◌, ℕ, ◌+◌, ◌≡◌, refl, List, [], ◌∷◌, none, some, true,
  false,
}
use flag_it.Sdk.Json.{Json, null, num, bool}
use flag_it.Dashboard.Api.{Web}
use flag_it.Dashboard.Coherence.{View, Event, key_of, effects}
use flag_it.Dashboard.Coherence.Misses.{Misses}
use flag_it.Dashboard.Coherence.Client.{Entry, perform_all, invalidated}
use flag_it.Dashboard.Coherence.Memory.{memory}
use flag_it.Dashboard.Coherence.Names.{view_of, view_of-key_of}
use flag_it.Dashboard.Coherence.Runs.{Server, Action, fetch, succeed, World}

abbrev web : Web
web = record { encode_uri_component = λ s. s; encode_form = λ s. s; decimal = λ n. "" }

-- The number of the users, and the configurations of flags.
record Kept : Type 0 where
  users : ℕ
  config : String → String → String → String → Json ℕ

abbrev is_same : (o p f e o' p' f' e' : String) → Bool
is_same o p f e o' p' f' e' = (str_eq o o' && str_eq p p') && (str_eq f f' && str_eq e e')

abbrev answer : Kept → View → Json ℕ
answer s View.users = num s.users
answer s (View.flag_config o p f e) = s.config o p f e
answer s v = null

abbrev apply : Kept → Event ℕ → Kept
apply s (Event.create_user input r) = record s { users = s.users + 1 }
apply s (Event.patch_flag_config o p f e input r) = record s {
  config = λ o' p' f' e'. if is_same o p f e o' p' f' e' then r else s.config o' p' f' e';
}
apply s e = s

-- A patch makes the configuration what it returns; no flag has the key "env".
abbrev Possible : Kept → Event ℕ → Type 0
Possible s (Event.create_user input r) = r ≡ num (s.users + 1)
Possible s (Event.patch_flag_config o p f e input r) = str_eq f "env" ≡ false
Possible s e = ⊥

abbrev server : Server ℕ
server = record { State = Kept; answer = answer; Possible = Possible; apply = apply }

abbrev start : World web server memory
start = record { server = record { users = 3; config = λ o p f e. null }; cache = λ k. none }

abbrev page : View
page = View.flag_config "acme" "shop" "beta" "prod"

abbrev actions : List (Action ℕ)
actions =
    fetch page
    ∷ fetch View.users
    ∷ succeed (Event.create_user null (num 4))
    ∷ succeed (Event.patch_flag_config "acme" "shop" "beta" "prod" null (bool true))
    ∷ fetch (View.env_flags "acme" "shop" "prod" "")
    ∷ succeed (Event.patch_flag_config "acme" "shop" "other" "prod" null (bool false))
    ∷ []

view_of-key_of_example :
    view_of (key_of ℕ web (View.one_segment "acme" "shop" "beta"))
    ≡ some (View.one_segment "acme" "shop" "beta")
view_of-key_of_example = view_of-key_of ℕ web (View.one_segment "acme" "shop" "beta") refl

-- The list of segments that is searched by `beta` and the segment `beta` share a key.
shared_key_test :
    key_of ℕ web (View.segments "acme" "shop" "beta")
    ≡ key_of ℕ web (View.one_segment "acme" "shop" "beta")
shared_key_test = refl

-- The switch on the page of a flag leaves the list of the flags of the environment as it was.
abbrev listed : Entry ℕ
listed = record { value = bool false; is_invalidated = false }

toggle_test :
    perform_all memory
      (effects
        (Event.toggle_flag "acme" "shop" "beta" (record { env_key = "prod"; on = true }) null))
      (λ k. some listed)
      (key_of ℕ web (View.env_flags "acme" "shop" "prod" ""))
    ≡ some listed
unfolding perform_all
toggle_test = refl

patch_test :
    perform_all memory
      (effects (Event.patch_flag_config "acme" "shop" "beta" "prod" null null))
      (λ k. some listed)
      (key_of ℕ web (View.env_flags "acme" "shop" "prod" ""))
    ≡ invalidated (some listed)
unfolding perform_all
patch_test = refl
