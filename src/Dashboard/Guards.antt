-- ===== src/Dashboard/Guards.antt =====
-- The route guards, web/src/app/guards.tsx, with the top of the routes of web/src/app/router.tsx.
-- An address is compared as its text; the router takes a slash at the end, and other case, for the
-- same. Below `/` the router has a list of routes and none for all others: an address that no route
-- has gets its page of errors, and here is let through to `outlet` like the others.
pub mod Boot
pub mod Sessions
mod Tests
use flag_it.Common.{
  Bool, true, false, ℕ, zero, suc, Option, none, some, String, str_eq, if◌then◌else◌,
}

-- `useSetupStatus`: still pending, or settled, with `data?.needs_setup`.
pub data Status : Type 0 where
  pending : Status
  settled : Option Bool → Status

-- What a guard renders. `Outlet` stands for the page of the address.
pub data Screen : Type 0 where
  boot_spinner : Screen
  setup_page : Screen
  login_page : Screen
  outlet : String → Screen
  navigate : String → Screen

-- The truth of `status.data?.needs_setup`
abbrev pub needs_setup : Option Bool → Bool
needs_setup none = false
needs_setup (some b) = b

unfoldable pub setup_route : Status → Bool → Screen
setup_route pending authenticated = boot_spinner
setup_route (settled answer) authenticated =
    if needs_setup answer then setup_page else navigate (if authenticated then "/" else "/login")

unfoldable pub login_route : Status → Bool → Screen
login_route pending authenticated = boot_spinner
login_route (settled answer) authenticated =
    if needs_setup answer
    then navigate "/setup"
    else if authenticated
    then navigate "/"
    else login_page

unfoldable pub protected_layout : Status → Bool → String → Screen
protected_layout pending authenticated path = boot_spinner
protected_layout (settled answer) authenticated path =
    if needs_setup answer
    then navigate "/setup"
    else if authenticated
    then outlet path
    else navigate "/login"

-- The guard of an address that a route has: all other routes stand below the protected one.
unfoldable pub guard : Status → Bool → String → Screen
unfolding setup_route login_route protected_layout
guard status authenticated path =
    if str_eq path "/setup"
    then setup_route status authenticated
    else if str_eq path "/login"
    then login_route status authenticated
    else protected_layout status authenticated path

abbrev pub redirected : (String → Screen) → Screen → Screen
redirected go (navigate to) = go to
redirected go screen = screen

-- Follows at most `n` redirects.
unfoldable pub follow : ℕ → Status → Bool → String → Screen
follow zero status authenticated path = guard status authenticated path
follow (suc n) status authenticated path =
    redirected (follow n status authenticated) (guard status authenticated path)
