-- ===== src/Dashboard/Guards/Boot.antt =====
-- Where the guards lead: to the page that the state of the install and of the session asks for, in at
-- most two redirects.
use flag_it.Common.{
  Bool, true, false, Option, String, str_eq, if◌then◌else◌, ◌≡◌, refl, arith, Bool-cases, inl, inr,
  ◌||◌, ℕ, zero, suc, ap, ◌∙◌, eq_iff,
}
use flag_it.Dashboard.Guards.{
  Status, pending, settled, Screen, boot_spinner, setup_page, login_page, outlet, navigate,
  needs_setup, setup_route, login_route, protected_layout, guard, follow,
}

-- The two addresses that are for those who are not in the app yet.
abbrev pub is_entrance : String → Bool
is_entrance path = str_eq path "/setup" || str_eq path "/login"

-- A fresh install shows the wizard; otherwise who is signed in sees the page of the address, or the
-- first page if the address is an entrance, and who is not sees the login.
abbrev pub destination : Status → Bool → String → Screen
destination pending authenticated path = boot_spinner
destination (settled answer) authenticated path =
    if needs_setup answer
    then setup_page
    else if authenticated
    then outlet (if is_entrance path then "/" else path)
    else login_page

neither : (a b : Bool) → (a || b) ≡ false → (a ≡ false) × (b ≡ false)
neither a b h = ground arith

abbrev IsPage : Screen → Type 0
IsPage (navigate to) = ⊥
IsPage screen = Unit

follow-page :
    (n : ℕ) (status : Status) (authenticated : Bool) (path : String) (screen : Screen)
    → guard status authenticated path ≡ screen
    → IsPage screen
    → follow n status authenticated path ≡ screen
unfolding follow
follow-page zero status authenticated path screen e h = e
follow-page (suc n) status authenticated path boot_spinner e h = rw e refl
follow-page (suc n) status authenticated path setup_page e h = rw e refl
follow-page (suc n) status authenticated path login_page e h = rw e refl
follow-page (suc n) status authenticated path (outlet to) e h = rw e refl
follow-page (suc n) status authenticated path (navigate to) e h = elim h [ ]

follow-navigate :
    (n : ℕ) (status : Status) (authenticated : Bool) (path to : String)
    → guard status authenticated path ≡ navigate to
    → follow (suc n) status authenticated path ≡ follow n status authenticated to
unfolding follow
follow-navigate n status authenticated path to e = rw e refl

guard-pending :
    (authenticated : Bool) (path : String) → guard pending authenticated path ≡ boot_spinner
unfolding guard setup_route login_route protected_layout
guard-pending authenticated path = ground arith

-- A fresh install.
follow-fresh :
    (n : ℕ) (answer : Option Bool) (authenticated : Bool) (path : String)
    → needs_setup answer ≡ true
    → follow (suc n) (settled answer) authenticated path ≡ setup_page
unfolding guard setup_route login_route protected_layout
follow-fresh n answer authenticated path fresh = elim (Bool-cases (str_eq path "/setup")) [
  | inl there ↦ follow-page (suc n) _ _ path setup_page (rw (there, fresh) refl) tt
  | inr elsewhere ↦
      follow-navigate n _ _ path "/setup" (elim (Bool-cases (str_eq path "/login")) [
        | inl login ↦ rw (elsewhere, login, fresh) refl
        | inr other ↦ rw (elsewhere, other, fresh) refl
      ])
      ∙ follow-page n _ _ "/setup" setup_page (rw fresh refl) tt
]

follow-signed_out :
    (n : ℕ) (answer : Option Bool) (path : String)
    → needs_setup answer ≡ false
    → follow (suc n) (settled answer) false path ≡ login_page
unfolding guard setup_route login_route protected_layout
follow-signed_out n answer path configured = elim (Bool-cases (str_eq path "/login")) [
  | inl there ↦
      follow-page (suc n) _ _ path login_page
        (rw (ap (λ s. str_eq s "/setup") ((eq_iff path "/login").0 there), there, configured) refl)
        tt
  | inr elsewhere ↦
      follow-navigate n _ _ path "/login" (elim (Bool-cases (str_eq path "/setup")) [
        | inl setup ↦ rw (setup, configured) refl
        | inr other ↦ rw (other, elsewhere, configured) refl
      ])
      ∙ follow-page n _ _ "/login" login_page (rw configured refl) tt
]

follow-signed_in :
    (n : ℕ) (answer : Option Bool) (path : String)
    → needs_setup answer ≡ false
    → follow (suc n) (settled answer) true path ≡ outlet (if is_entrance path then "/" else path)
unfolding guard setup_route login_route protected_layout
follow-signed_in n answer path configured = elim (Bool-cases (is_entrance path)) [
  | inl entrance ↦ rw entrance (
      follow-navigate n _ _ path "/" (elim (Bool-cases (str_eq path "/setup")) [
        | inl setup ↦ rw (setup, configured) refl
        | inr other ↦ rw (other, (rw other at entrance), configured) refl
      ])
      ∙ follow-page n _ _ "/" (outlet "/") (rw configured refl) tt)
  | inr other ↦ rw other (
      follow-page (suc n) _ _ path (outlet path)
        (let (setup, login) = neither (str_eq path "/setup") (str_eq path "/login") other in
          rw (setup, login, configured) refl)
        tt)
]

by_session :
    (authenticated : Bool) (n : ℕ) (answer : Option Bool) (path : String)
    → needs_setup answer ≡ false
    → follow (suc n) (settled answer) authenticated path
      ≡ (if authenticated then outlet (if is_entrance path then "/" else path) else login_page)
by_session true n answer path configured = follow-signed_in n answer path configured
by_session false n answer path configured = follow-signed_out n answer path configured

-- From every address and in every state, one redirect at most leads to the destination, and more are
-- not asked for: a fresh install shows the wizard, who is not signed in the login, and who is signed
-- in the page of the address, or the first page if the address is the wizard's or the login's. While
-- the status of the install is pending it is the spinner.
pub follow-destination :
    (n : ℕ) (status : Status) (authenticated : Bool) (path : String)
    → follow (suc n) status authenticated path ≡ destination status authenticated path
follow-destination n pending authenticated path =
    follow-page (suc n) pending authenticated path boot_spinner (guard-pending authenticated path)
      tt
follow-destination n (settled answer) authenticated path = elim (Bool-cases (needs_setup answer)) [
  | inl fresh ↦ rw fresh (follow-fresh n answer authenticated path fresh)
  | inr configured ↦ rw configured (by_session authenticated n answer path configured)
]
