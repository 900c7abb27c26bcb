-- ===== src/Dashboard/Guards/Sessions.antt =====
-- Signing in, completing the setup and signing out, from the hooks through the session and the cache
-- to the guards.
use flag_it.Common.{
  Bool, false, Option, none, some, String, List, [], ◌∷◌, ◌≡◌, ◌∙◌, refl, if◌then◌else◌,
}
use flag_it.Sdk.Json.{Json, bool, obj, properties, lookup}
use flag_it.Dashboard.Hooks.{Effect, invalidate, set_data, sign_in, sign_out, clear}
use flag_it.Dashboard.Hooks.Keys
use flag_it.Dashboard.Hooks.Keys.{Key}
use flag_it.Dashboard.Hooks.Auth.{SignedIn, use_login, use_logout}
use flag_it.Dashboard.Hooks.Setup.{use_complete_setup}
use flag_it.Dashboard.Session
use flag_it.Dashboard.Session.{Storage, Holder, Session, get_token, set_token, clear_token}
use flag_it.Dashboard.Api.Request.{authorization}
use flag_it.Dashboard.Coherence.Client.{QueryClient, IsLawful, Entry, fresh, perform}
use flag_it.Dashboard.Guards.{
  Status, pending, settled, needs_setup, Screen, outlet, boot_spinner, follow,
}
use flag_it.Dashboard.Guards.Boot.{destination, is_entrance, follow-destination}

module _ {N : Type 0} where
  -- `data?.needs_setup`, of data that has the type `SetupStatus`.
  abbrev flag_of : Json N → Option Bool
  flag_of (obj o) = elim (lookup "needs_setup" (properties o)) [ some (bool b) ↦ some b | _ ↦ none ]
  flag_of _ = none

  -- The status of the setup, of the cache: pending as long as there are no data.
  abbrev pub status_of : Option (Entry N) → Status
  status_of none = pending
  status_of (some e) = settled (flag_of e.value)

module _ {N : Type 0} (S : Storage) (C : QueryClient N) where
  -- The session and the cache.
  pub record App : Type 0 where
    pub session : Session S
    pub cache : C.State

  -- An effect of a hook: on the session, and on the cache.
  abbrev pub perform_session : Effect N → Session S → Session S
  perform_session (sign_in token) s = Session.sign_in S token s
  perform_session sign_out s = Session.sign_out S s
  perform_session (invalidate k) s = s
  perform_session (set_data k v) s = s
  perform_session clear s = s

  unfoldable pub commit : List (Effect N) → App → App
  commit [] app = app
  commit (e ∷ effects) app =
      commit effects
        (record { session = perform_session e app.session; cache = perform C e app.cache })

  -- What the guards show at an address.
  abbrev pub shows : App → String → Screen
  shows app path =
      follow 1 (status_of (C.entry app.cache Keys.setup_status)) app.session.is_authenticated path

  -- What is sent with a request.
  abbrev pub bearer : App → List (String × String)
  bearer app = authorization (get_token S app.session.holder).0

module _ {N : Type 0} (S : Storage) (C : QueryClient N) (L : IsLawful C) where
  shows-destination :
      (app : App S C) (path : String)
      → shows S C app path
        ≡ destination
            (status_of (C.entry app.cache Keys.setup_status))
            app.session.is_authenticated
            path
  shows-destination app path =
      follow-destination 0 (status_of (C.entry app.cache Keys.setup_status))
        app.session.is_authenticated path

  -- When the setup succeeds, over any cache that keeps its promises: every address leads into the app,
  -- the requests carry the new token, and the user is known.
  pub commit-use_complete_setup :
      (input : Json N) (result : SignedIn N) (app : App S C) (path : String)
      → let next = commit S C (use_complete_setup.on_success result input) app in
        (shows S C next path ≡ outlet (if is_entrance path then "/" else path))
        × ((bearer S C next ≡ authorization (some result.token))
            × (C.entry next.cache Keys.me ≡ fresh result.user))
  unfolding commit Session.sign_in set_token get_token lookup
  commit-use_complete_setup input result app path = (
    shows-destination (commit S C (use_complete_setup.on_success result input) app) path
        ∙ rw L.entry-set_query_data refl,
    (refl, rw (L.entry-set_query_data, L.entry-set_query_data) refl),
  )

  -- When a login succeeds on an install whose setup is done: every address leads into the app, the
  -- requests carry the new token, and the user is known.
  pub commit-use_login :
      (input : Json N) (session : SignedIn N) (app : App S C) (path : String)
      → {answer : Option Bool} → status_of (C.entry app.cache Keys.setup_status) ≡ settled answer
      → needs_setup answer ≡ false
      → let next = commit S C (use_login.on_success session input) app in
        (shows S C next path ≡ outlet (if is_entrance path then "/" else path))
        × ((bearer S C next ≡ authorization (some session.token))
            × (C.entry next.cache Keys.me ≡ fresh session.user))
  unfolding commit Session.sign_in set_token get_token
  commit-use_login input session app path known configured = (
    shows-destination (commit S C (use_login.on_success session input) app) path
        ∙ rw (L.entry-set_query_data, known, configured) refl,
    (refl, rw L.entry-set_query_data refl),
  )

  -- After signing out nothing is left under any key of the cache, no token is sent, and every address
  -- shows the spinner until the status of the setup has come.
  pub commit-use_logout :
      (app : App S C) (k : Key) (path : String)
      → let next = commit S C use_logout app in
        (C.entry next.cache k ≡ none)
        × ((bearer S C next ≡ []) × (shows S C next path ≡ boot_spinner))
  unfolding commit Session.sign_out clear_token get_token
  commit-use_logout app k path = (
    L.entry-remove_all _ k,
    (refl, shows-destination (commit S C use_logout app) path ∙ rw L.entry-remove_all refl),
  )
