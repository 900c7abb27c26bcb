-- ===== src/Dashboard/Coherence/Misses.antt =====
-- The mutations whose effects leave data in the cache that they change on the server, as
-- `Coherence/Resources` has it.
use flag_it.Common.{Bool, Option, some, String, ◌≡◌}
use flag_it.Sdk.Json.{Json}
use flag_it.Dashboard.Coherence.{View, Event}
use flag_it.Dashboard.Hooks.Auth.{SignedIn}
use flag_it.Dashboard.Hooks.Flags.{FlagSwitch, EnvSwitch}
use flag_it.Dashboard.Hooks.Users.{UserUpdate}
use flag_it.Dashboard.Coherence.Resources.{recorded_in}

-- A query other than those of the setup and of who is signed in.
abbrev pub IsAboutData : View → Type 0
IsAboutData View.setup_status = ⊥
IsAboutData (View.me b) = ⊥
IsAboutData v = Unit

module _ {N : Type 0} where
  -- The changes that do not reach the cache.
  pub data Misses : Event N → View → Type 0 where
    -- The switch on the page of a flag leaves the lists of the flags alone.
    env_flags :
        {o p f s : String} {v : EnvSwitch} {r : Json N}
        → Misses (Event.toggle_flag o p f v r) (View.env_flags o p v.env_key s)
    -- The switch in the list leaves the page alone.
    config :
        {o p e : String} {v : FlagSwitch} {r : Json N}
        → Misses (Event.toggle_env_flag o p e v r) (View.flag_config o p v.flag_key e)
    -- A change of a user leaves who is signed in and the members alone.
    me : {b : Bool} {v : UserUpdate N} {r : Json N} → Misses (Event.update_user v r) (View.me b)
    members :
        {o : String} {v : UserUpdate N} {r : Json N}
        → Misses (Event.update_user v r) (View.members o)
    -- The deletion of a user leaves the members alone, and what goes with the user who made it.
    deleted : {o x : String} {r : Unit {0}} → Misses (Event.delete_user x r) (View.members o)
    deleted_changes :
        {o p x : String} {s : Option String} {r : Unit {0}}
        → Misses (Event.delete_user x r) (View.changes o p s)
    deleted_schedule :
        {o p f e x : String} {s : Option String} {r : Unit {0}}
        → Misses (Event.delete_user x r) (View.scheduled_changes o p f e s)
    deleted_triggers :
        {o p f e x : String} {r : Unit {0}} → Misses (Event.delete_user x r) (View.triggers o p f e)
    deleted_webhooks :
        {o x : String} {r : Unit {0}} → Misses (Event.delete_user x r) (View.webhooks o)
    -- A new member and a grant leave the projects alone that the caller can read, and a grant leaves
    -- the members alone, of whom it may add one.
    readable : {o : String} {i r : Json N} → Misses (Event.add_member o i r) (View.projects o)
    granted :
        {o p : String} {i r : Json N} → Misses (Event.grant_project_role o p i r) (View.projects o)
    granted_members :
        {o p : String} {i r : Json N} → Misses (Event.grant_project_role o p i r) (View.members o)
    -- A login and the setup leave the data alone that are there from before.
    login : {v : View} {i : Json N} {r : SignedIn N} → IsAboutData v → Misses (Event.login i r) v
    setup :
        {v : View} {i : Json N} {r : SignedIn N}
        → IsAboutData v
        → Misses (Event.complete_setup i r) v
    -- A test of a webhook and all that is recorded leave the deliveries alone, and the audit log.
    deliveries :
        {o x : String} {b : Bool} {r : Json N}
        → Misses (Event.test_webhook o x r) (View.webhook_deliveries o x b)
    delivered :
        {e : Event N} {o x : String} {b : Bool}
        → recorded_in e ≡ some o
        → Misses e (View.webhook_deliveries o x b)
    recorded :
        {e : Event N} {o type : String} → recorded_in e ≡ some o → Misses e (View.audit o type)
