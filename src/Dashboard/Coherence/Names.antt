-- ===== src/Dashboard/Coherence/Names.antt =====
-- Which keys of web/src/lib/query-keys.ts stand for one view each: a reading of keys back into views.
use flag_it.Common.{
  true, false, Option, none, some, [], ◌∷◌, ◌≡◌, refl, ap, ◌∙◌, sym, String, str_eq, if◌then◌else◌,
}
use flag_it.Dashboard.Api.{Web}
use flag_it.Dashboard.Hooks.Keys.{Key}
use flag_it.Dashboard.Coherence.{View, key_of}

-- `'all'` is no status.
abbrev status_named : String → Option String
status_named s = if str_eq s "all" then none else some s

abbrev named_one : String → Option View
named_one x =
    if str_eq x "permissions"
    then some View.permissions
    else if str_eq x "users"
    then some View.users
    else none

abbrev named_two : String → String → Option View
named_two x a =
    if str_eq x "auth"
    then some (View.me true)
    else if str_eq x "setup"
    then some View.setup_status
    else if str_eq x "organizations"
    then some View.organizations
    else if str_eq x "projects"
    then some (View.projects a)
    else if str_eq x "webhooks"
    then some (View.webhooks a)
    else if str_eq x "roles"
    then some (View.roles a)
    else if str_eq x "members"
    then some (View.members a)
    else none

abbrev named_three : String → String → String → Option View
named_three x a b =
    if str_eq x "projects"
    then some (View.project a b)
    else if str_eq x "flags"
    then some (View.flags a b)
    else if str_eq x "audit"
    then some (View.audit a b)
    else none

-- A key of a segment is read as the segment, unless its last text is empty; of a flag as the flag,
-- unless that is `lifecycle`.
abbrev named_four : String → String → String → String → Option View
named_four x a b c =
    if str_eq x "flags"
    then (if str_eq c "lifecycle"
        then some (View.flag_lifecycle a b)
        else some (View.one_flag a b c))
    else if str_eq x "segments"
    then (if str_eq c "" then some (View.segments a b c) else some (View.one_segment a b c))
    else if str_eq x "environments"
    then some (View.environments a b c)
    else if str_eq x "changes"
    then some (View.changes a b (status_named c))
    else if str_eq x "sdk-keys"
    then some (View.sdk_keys a b c)
    else if str_eq x "webhooks"
    then some (View.webhook_deliveries a b true)
    else none

abbrev named_five : String → String → String → String → String → Option View
named_five x a b c d =
    if str_eq x "contexts"
    then some (View.contexts a b c d)
    else if str_eq x "triggers"
    then some (View.triggers a b c d)
    else none

abbrev named_six : String → String → String → String → String → String → Option View
named_six x a b c d e =
    if str_eq x "contexts"
    then some (View.one_context a b c d e)
    else if str_eq x "stats"
    then some (View.env_stats b c d e)
    else if str_eq x "scheduled-changes"
    then some (View.scheduled_changes a b c d (status_named e))
    else if str_eq c "env"
    then some (View.env_flags a b d e)
    else some (View.flag_config a b c e)

unfoldable pub view_of : Key → Option View
view_of [] = none
view_of (x ∷ []) = named_one x
view_of (x ∷ a ∷ []) = named_two x a
view_of (x ∷ a ∷ b ∷ []) = named_three x a b
view_of (x ∷ a ∷ b ∷ c ∷ []) = named_four x a b c
view_of (x ∷ a ∷ b ∷ c ∷ d ∷ []) = named_five x a b c d
view_of (x ∷ a ∷ b ∷ c ∷ d ∷ e ∷ []) = named_six x a b c d e
view_of (x ∷ a ∷ b ∷ c ∷ d ∷ e ∷ f ∷ []) = some (View.flag_stats b c d e f)
view_of (x ∷ a ∷ b ∷ c ∷ d ∷ e ∷ f ∷ g ∷ k) = none

-- The views whose keys are their own: a list of segments that is searched by a text shares the key of
-- the segment of that name, a flag that is called `lifecycle` that of the list of stale flags, and
-- the configurations of a flag that is called `env` those of the lists of an environment. A filter
-- is not the text `all`. A query that is switched off shows nothing, and is left out.
abbrev pub IsNamed : View → Type 0
IsNamed (View.one_flag o p f) = str_eq f "lifecycle" ≡ false
IsNamed (View.segments o p s) = s ≡ ""
IsNamed (View.one_segment o p s) = str_eq s "" ≡ false
IsNamed (View.flag_config o p f e) = str_eq f "env" ≡ false
IsNamed (View.changes o p (some s)) = str_eq s "all" ≡ false
IsNamed (View.scheduled_changes o p f e (some s)) = str_eq s "all" ≡ false
IsNamed (View.me b) = b ≡ true
IsNamed (View.webhook_deliveries o i b) = b ≡ true
IsNamed v = Unit

some-injective : {v w : View} → some v ≡ some w → v ≡ w
some-injective h = cc

module _ (N : Type 0) (web : Web) where
  -- The key of a view with a name of its own leads back to the view.
  pub view_of-key_of : (v : View) → IsNamed v → view_of (key_of N web v) ≡ some v
  unfolding view_of
  view_of-key_of (View.one_flag o p f) h = rw h refl
  view_of-key_of (View.segments o p s) h = rw h refl
  view_of-key_of (View.one_segment o p s) h = rw h refl
  view_of-key_of (View.flag_config o p f e) h = rw h refl
  view_of-key_of (View.changes o p (some s)) h = rw h refl
  view_of-key_of (View.changes o p none) h = refl
  view_of-key_of (View.scheduled_changes o p f e (some s)) h = rw h refl
  view_of-key_of (View.scheduled_changes o p f e none) h = refl
  view_of-key_of (View.me b) h = rw h refl
  view_of-key_of (View.webhook_deliveries o i b) h = rw h refl
  view_of-key_of _ h = refl

  -- Views with names of their own do not share a key.
  pub key_of-injective :
      (v w : View) → IsNamed v → IsNamed w → key_of N web v ≡ key_of N web w → v ≡ w
  key_of-injective v w hv hw same =
      some-injective (sym (view_of-key_of v hv) ∙ ap view_of same ∙ view_of-key_of w hw)
