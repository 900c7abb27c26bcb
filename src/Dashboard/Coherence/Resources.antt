-- ===== src/Dashboard/Coherence/Resources.antt =====
-- What the server keeps, as far as the dashboard shows it: which data each query reads and which each
-- mutation writes, after the handlers of internal/server, the tables of migrations/00001_init.sql,
-- with what a deletion takes along, and internal/audit, whose entries are handed to the webhooks of
-- the organization. A mutation is related to all that it may write. Answers of failure have no
-- resource: those of what is not there yet or not any more, and those to a user without permission.
-- Nor has what the server writes by itself: evaluation counts, seen contexts, scheduled changes that
-- fall due, triggers that are fired and deliveries that are tried again.
use flag_it.Common.{Bool, Option, none, some, String, ◌≡◌}
use flag_it.Sdk.Json.{Json}
use flag_it.Dashboard.Coherence.{View, Event}
use flag_it.Dashboard.Endpoints.Flags.{CreateFlagInput}
use flag_it.Dashboard.Hooks.Changes.{Review}
use flag_it.Dashboard.Hooks.Auth.{SignedIn}
use flag_it.Dashboard.Hooks.Flags.{FlagSwitch, EnvSwitch}
use flag_it.Dashboard.Hooks.Triggers.{Enabling}
use flag_it.Dashboard.Hooks.Segments.{CreateSegmentInput}
use flag_it.Dashboard.Hooks.Users.{UserUpdate}

pub data Resource : Type 0 where
  identity : Resource
  setup : Resource
  organization_list : Resource
  project_list : String → Resource
  project_data : String → String → Resource
  environment_list : String → String → Resource
  flag_list : String → String → Resource
  flag_data : String → String → String → Resource
  flag_state : String → String → String → String → Resource
  segment_list : String → String → Resource
  segment_data : String → String → String → Resource
  sdk_key_list : String → String → String → Resource
  change_list : String → String → Resource
  schedule : String → String → Resource
  trigger_list : String → String → Resource
  member_list : String → Resource
  role_list : String → Resource
  user_list : Resource
  webhook_list : String → Resource
  delivery_list : String → String → Resource
  audit_log : String → Resource
  caller : Resource

-- Every answer is for the user who asks, but whether the setup is needed.
abbrev pub IsPersonal : View → Type 0
IsPersonal View.setup_status = ⊥
IsPersonal v = Unit

-- The data of a query is made of a resource.
pub data Reads : View → Resource → Type 0 where
  me : {b : Bool} → Reads (View.me b) identity
  setup_status : Reads View.setup_status setup
  organizations : Reads View.organizations organization_list
  projects : {o : String} → Reads (View.projects o) (project_list o)
  project : {o p : String} → Reads (View.project o p) (project_data o p)
  environments : {o p s : String} → Reads (View.environments o p s) (environment_list o p)
  flags : {o p : String} → Reads (View.flags o p) (flag_list o p)
  lifecycle : {o p : String} → Reads (View.flag_lifecycle o p) (flag_list o p)
  env_flags : {o p e s : String} → Reads (View.env_flags o p e s) (flag_list o p)
  env_states : {o p f e s : String} → Reads (View.env_flags o p e s) (flag_state o p f e)
  flag : {o p f : String} → Reads (View.one_flag o p f) (flag_data o p f)
  config : {o p f e : String} → Reads (View.flag_config o p f e) (flag_state o p f e)
  segments : {o p s : String} → Reads (View.segments o p s) (segment_list o p)
  segment : {o p s : String} → Reads (View.one_segment o p s) (segment_data o p s)
  sdk_keys : {o p e : String} → Reads (View.sdk_keys o p e) (sdk_key_list o p e)
  changes : {o p : String} {s : Option String} → Reads (View.changes o p s) (change_list o p)
  scheduled :
      {o p f e : String} {s : Option String}
      → Reads (View.scheduled_changes o p f e s) (schedule o p)
  triggers : {o p f e : String} → Reads (View.triggers o p f e) (trigger_list o p)
  members : {o : String} → Reads (View.members o) (member_list o)
  roles : {o : String} → Reads (View.roles o) (role_list o)
  users : Reads View.users user_list
  webhooks : {o : String} → Reads (View.webhooks o) (webhook_list o)
  deliveries : {o i : String} {b : Bool} → Reads (View.webhook_deliveries o i b) (delivery_list o i)
  audit : {o type : String} → Reads (View.audit o type) (audit_log o)
  personal : {v : View} → IsPersonal v → Reads v caller

module _ {N : Type 0} where
  -- The organization under which the mutation is recorded, and whose webhooks get it. Mutations of the
  -- platform, a change of a user and a test of a webhook are recorded under none.
  abbrev pub recorded_in : Event N → Option String
  recorded_in (Event.login i r) = none
  recorded_in (Event.complete_setup i r) = none
  recorded_in (Event.create_user i r) = none
  recorded_in (Event.update_user v r) = none
  recorded_in (Event.delete_user x r) = none
  recorded_in (Event.delete_organization o r) = none
  recorded_in (Event.test_webhook o x r) = none
  recorded_in (Event.create_change o p f e i r) = some o
  recorded_in (Event.review_change o p i r) = some o
  recorded_in (Event.create_environment o p i r) = some o
  recorded_in (Event.toggle_env_flag o p e v r) = some o
  recorded_in (Event.create_flag o p i r) = some o
  recorded_in (Event.toggle_flag o p f v r) = some o
  recorded_in (Event.patch_flag_config o p f e i r) = some o
  recorded_in (Event.delete_flag o p f r) = some o
  recorded_in (Event.create_scheduled_change o p f e i r) = some o
  recorded_in (Event.cancel_scheduled_change o p x r) = some o
  recorded_in (Event.create_trigger o p f e i r) = some o
  recorded_in (Event.set_trigger_enabled o p v r) = some o
  recorded_in (Event.reset_trigger o p x r) = some o
  recorded_in (Event.delete_trigger o p x r) = some o
  recorded_in (Event.add_member o i r) = some o
  recorded_in (Event.grant_project_role o p i r) = some o
  recorded_in (Event.create_project o i r) = some o
  recorded_in (Event.update_project o p n r) = some o
  recorded_in (Event.delete_project o p r) = some o
  recorded_in (Event.create_role o i r) = some o
  recorded_in (Event.create_sdk_key o p e i r) = some o
  recorded_in (Event.revoke_sdk_key o p e x r) = some o
  recorded_in (Event.create_segment o p i r) = some o
  recorded_in (Event.save_segment o p x i r) = some o
  recorded_in (Event.delete_segment o p x r) = some o
  recorded_in (Event.create_webhook o i r) = some o
  recorded_in (Event.set_webhook_enabled o v r) = some o
  recorded_in (Event.reset_webhook_secret o x r) = some o
  recorded_in (Event.delete_webhook o x r) = some o

  -- A mutation changes a resource of the server.
  pub data Writes : Event N → Resource → Type 0 where
    login : {i : Json N} {r : SignedIn N} → Writes (Event.login i r) identity
    signs_in : {i : Json N} {r : SignedIn N} → Writes (Event.login i r) caller
    setup_signs_in : {i : Json N} {r : SignedIn N} → Writes (Event.complete_setup i r) caller
    setup_organizations :
        {i : Json N} {r : SignedIn N} → Writes (Event.complete_setup i r) organization_list
    setup_users : {i : Json N} {r : SignedIn N} → Writes (Event.complete_setup i r) user_list
    setup_identity : {i : Json N} {r : SignedIn N} → Writes (Event.complete_setup i r) identity
    setup_status : {i : Json N} {r : SignedIn N} → Writes (Event.complete_setup i r) setup
    delete_organization :
        {o : String} {r : Unit {0}} → Writes (Event.delete_organization o r) organization_list
    create_project :
        {o : String} {i r : Json N} → Writes (Event.create_project o i r) (project_list o)
    update_projects :
        {o p n : String} {r : Json N} → Writes (Event.update_project o p n r) (project_list o)
    update_project :
        {o p n : String} {r : Json N} → Writes (Event.update_project o p n r) (project_data o p)
    delete_projects :
        {o p : String} {r : Unit {0}} → Writes (Event.delete_project o p r) (project_list o)
    delete_project :
        {o p : String} {r : Unit {0}} → Writes (Event.delete_project o p r) (project_data o p)
    create_environment :
        {o p : String} {i r : Json N}
        → Writes (Event.create_environment o p i r) (environment_list o p)
    create_flags :
        {o p : String} {i : CreateFlagInput N} {r : Json N}
        → Writes (Event.create_flag o p i r) (flag_list o p)
    create_flag :
        {o p : String} {i : CreateFlagInput N} {r : Json N}
        → Writes (Event.create_flag o p i r) (flag_data o p i.key)
    create_state :
        {o p e : String} {i : CreateFlagInput N} {r : Json N}
        → Writes (Event.create_flag o p i r) (flag_state o p i.key e)
    delete_flags :
        {o p f : String} {r : Unit {0}} → Writes (Event.delete_flag o p f r) (flag_list o p)
    delete_flag :
        {o p f : String} {r : Unit {0}} → Writes (Event.delete_flag o p f r) (flag_data o p f)
    delete_state :
        {o p f e : String} {r : Unit {0}} → Writes (Event.delete_flag o p f r) (flag_state o p f e)
    toggle_env_flag :
        {o p e : String} {v : FlagSwitch} {r : Json N}
        → Writes (Event.toggle_env_flag o p e v r) (flag_state o p v.flag_key e)
    toggle_flag :
        {o p f : String} {v : EnvSwitch} {r : Json N}
        → Writes (Event.toggle_flag o p f v r) (flag_state o p f v.env_key)
    patch :
        {o p f e : String} {i r : Json N}
        → Writes (Event.patch_flag_config o p f e i r) (flag_state o p f e)
    create_change :
        {o p f e : String} {i r : Json N}
        → Writes (Event.create_change o p f e i r) (change_list o p)
    review :
        {o p : String} {i : Review} {r : Json N}
        → Writes (Event.review_change o p i r) (change_list o p)
    review_state :
        {o p f e : String} {i : Review} {r : Json N}
        → Writes (Event.review_change o p i r) (flag_state o p f e)
    create_scheduled :
        {o p f e : String} {i r : Json N}
        → Writes (Event.create_scheduled_change o p f e i r) (schedule o p)
    cancel_scheduled :
        {o p x : String} {r : Json N}
        → Writes (Event.cancel_scheduled_change o p x r) (schedule o p)
    create_trigger :
        {o p f e : String} {i r : Json N}
        → Writes (Event.create_trigger o p f e i r) (trigger_list o p)
    enable_trigger :
        {o p : String} {v : Enabling} {r : Json N}
        → Writes (Event.set_trigger_enabled o p v r) (trigger_list o p)
    reset_trigger :
        {o p x : String} {r : Json N} → Writes (Event.reset_trigger o p x r) (trigger_list o p)
    delete_trigger :
        {o p x : String} {r : Unit {0}} → Writes (Event.delete_trigger o p x r) (trigger_list o p)
    create_segments :
        {o p : String} {i : CreateSegmentInput} {r : Json N}
        → Writes (Event.create_segment o p i r) (segment_list o p)
    create_segment :
        {o p : String} {i : CreateSegmentInput} {r : Json N}
        → Writes (Event.create_segment o p i r) (segment_data o p i.key)
    save_segments :
        {o p s : String} {i r : Json N} → Writes (Event.save_segment o p s i r) (segment_list o p)
    save_segment :
        {o p s : String} {i r : Json N} → Writes (Event.save_segment o p s i r) (segment_data o p s)
    delete_segments :
        {o p s : String} {r : Unit {0}} → Writes (Event.delete_segment o p s r) (segment_list o p)
    delete_segment :
        {o p s : String} {r : Unit {0}} → Writes (Event.delete_segment o p s r) (segment_data o p s)
    create_sdk_key :
        {o p e : String} {i r : Json N}
        → Writes (Event.create_sdk_key o p e i r) (sdk_key_list o p e)
    revoke_sdk_key :
        {o p e x : String} {r : Unit {0}}
        → Writes (Event.revoke_sdk_key o p e x r) (sdk_key_list o p e)
    add_member : {o : String} {i r : Json N} → Writes (Event.add_member o i r) (member_list o)
    add_reader : {o : String} {i r : Json N} → Writes (Event.add_member o i r) (project_list o)
    grant_member :
        {o p : String} {i r : Json N} → Writes (Event.grant_project_role o p i r) (member_list o)
    grant_reader :
        {o p : String} {i r : Json N} → Writes (Event.grant_project_role o p i r) (project_list o)
    create_role : {o : String} {i r : Json N} → Writes (Event.create_role o i r) (role_list o)
    create_user : {i r : Json N} → Writes (Event.create_user i r) user_list
    update_user : {v : UserUpdate N} {r : Json N} → Writes (Event.update_user v r) user_list
    update_identity : {v : UserUpdate N} {r : Json N} → Writes (Event.update_user v r) identity
    update_member :
        {o : String} {v : UserUpdate N} {r : Json N}
        → Writes (Event.update_user v r) (member_list o)
    delete_user : {x : String} {r : Unit {0}} → Writes (Event.delete_user x r) user_list
    delete_member : {o x : String} {r : Unit {0}} → Writes (Event.delete_user x r) (member_list o)
    delete_changes :
        {o p x : String} {r : Unit {0}} → Writes (Event.delete_user x r) (change_list o p)
    delete_schedule :
        {o p x : String} {r : Unit {0}} → Writes (Event.delete_user x r) (schedule o p)
    delete_triggers :
        {o p x : String} {r : Unit {0}} → Writes (Event.delete_user x r) (trigger_list o p)
    delete_webhooks :
        {o x : String} {r : Unit {0}} → Writes (Event.delete_user x r) (webhook_list o)
    create_webhook :
        {o : String} {i r : Json N} → Writes (Event.create_webhook o i r) (webhook_list o)
    enable_webhook :
        {o : String} {v : Enabling} {r : Json N}
        → Writes (Event.set_webhook_enabled o v r) (webhook_list o)
    reset_webhook :
        {o x : String} {r : Json N} → Writes (Event.reset_webhook_secret o x r) (webhook_list o)
    delete_webhook :
        {o x : String} {r : Unit {0}} → Writes (Event.delete_webhook o x r) (webhook_list o)
    delete_deliveries :
        {o x : String} {r : Unit {0}} → Writes (Event.delete_webhook o x r) (delivery_list o x)
    test : {o x : String} {r : Json N} → Writes (Event.test_webhook o x r) (delivery_list o x)
    delivers : {e : Event N} {o x : String} → recorded_in e ≡ some o → Writes e (delivery_list o x)
    records : {e : Event N} {o : String} → recorded_in e ≡ some o → Writes e (audit_log o)
