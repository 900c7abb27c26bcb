-- ===== src/Dashboard/Coherence.antt =====
-- The data that the dashboard shows and the changes that it makes: one constructor per hook of
-- web/src/features/*/hooks, with the arguments of the hook, and for a mutation its variables and the
-- result it succeeds with. Coherence/Refresh says which mutation refreshes which data, and
-- Coherence/Runs that the cache agrees with the server.
pub mod Resources
pub mod Misses
pub mod Refresh
pub mod Client
pub mod Names
pub mod Runs
pub mod Methods
pub mod Memory
mod Tests
use flag_it.Common.{Bool, Option, String, List}
use flag_it.Sdk.Json.{Json}
use flag_it.Dashboard.Api.{Web, Call}
use flag_it.Dashboard.Endpoints.Flags.{CreateFlagInput}
use flag_it.Dashboard.Hooks.{Query, Effect}
use flag_it.Dashboard.Hooks.Keys.{Key}
use flag_it.Dashboard.Hooks.Changes.{Review}
use flag_it.Dashboard.Hooks.Auth.{SignedIn}
use flag_it.Dashboard.Hooks.Flags.{FlagSwitch, EnvSwitch}
use flag_it.Dashboard.Hooks.Triggers.{Enabling}
use flag_it.Dashboard.Hooks.Segments.{CreateSegmentInput}
use flag_it.Dashboard.Hooks.Users.{UserUpdate}
use flag_it.Dashboard.Hooks.Analytics.{use_flag_stats, use_env_stats}
use flag_it.Dashboard.Hooks.Audit.{use_audit}
use flag_it.Dashboard.Hooks.Auth.{use_me, use_login}
use flag_it.Dashboard.Hooks.Changes.{use_changes, use_create_change, use_review_change}
use flag_it.Dashboard.Hooks.Contexts.{use_contexts, use_context}
use flag_it.Dashboard.Hooks.Environments.{use_environments, use_create_environment}
use flag_it.Dashboard.Hooks.Flags.{
  use_flags, use_flag_lifecycle, use_env_flags, use_flag, use_flag_config, use_toggle_env_flag,
  use_create_flag, use_toggle_flag, use_patch_flag_config, use_delete_flag,
}
use flag_it.Dashboard.Hooks.Members.{use_members, use_add_member, use_grant_project_role}
use flag_it.Dashboard.Hooks.Organizations.{use_organizations, use_delete_organization}
use flag_it.Dashboard.Hooks.Projects.{
  use_projects, use_project, use_create_project, use_update_project, use_delete_project,
}
use flag_it.Dashboard.Hooks.Roles.{use_roles, use_permissions, use_create_role}
use flag_it.Dashboard.Hooks.ScheduledChanges.{
  use_scheduled_changes, use_create_scheduled_change, use_cancel_scheduled_change,
}
use flag_it.Dashboard.Hooks.SdkKeys.{use_sdk_keys, use_create_sdk_key, use_revoke_sdk_key}
use flag_it.Dashboard.Hooks.Segments.{
  use_segments, use_segment, use_create_segment, use_save_segment, use_delete_segment,
}
use flag_it.Dashboard.Hooks.Setup.{use_setup_status, use_complete_setup}
use flag_it.Dashboard.Hooks.Triggers.{
  use_triggers, use_create_trigger, use_set_trigger_enabled, use_reset_trigger, use_delete_trigger,
}
use flag_it.Dashboard.Hooks.Users.{use_users, use_create_user, use_update_user, use_delete_user}
use flag_it.Dashboard.Hooks.Webhooks.{
  use_webhooks, use_webhook_deliveries, use_create_webhook, use_set_webhook_enabled,
  use_reset_webhook_secret, use_test_webhook, use_delete_webhook,
}

-- A use of `useQuery`.
pub data View : Type 0 where
  flag_stats : String → String → String → String → String → View
  env_stats : String → String → String → String → View
  changes : String → String → Option String → View
  audit : String → String → View
  me : Bool → View
  contexts : String → String → String → String → View
  one_context : String → String → String → String → String → View
  environments : String → String → String → View
  flags : String → String → View
  flag_lifecycle : String → String → View
  env_flags : String → String → String → String → View
  one_flag : String → String → String → View
  flag_config : String → String → String → String → View
  scheduled_changes : String → String → String → String → Option String → View
  triggers : String → String → String → String → View
  members : String → View
  organizations : View
  projects : String → View
  project : String → String → View
  roles : String → View
  permissions : View
  sdk_keys : String → String → String → View
  segments : String → String → String → View
  one_segment : String → String → String → View
  setup_status : View
  users : View
  webhooks : String → View
  webhook_deliveries : String → String → Bool → View

module _ (N : Type 0) (web : Web) where
  abbrev pub asks : View → Query N
  asks (flag_stats o p flag env since) = use_flag_stats o p flag env since
  asks (env_stats o p env since) = use_env_stats o p env since
  asks (changes o p status) = use_changes o p status
  asks (audit o type) = use_audit web o type
  asks (me authenticated) = use_me authenticated
  asks (contexts o p env term) = use_contexts web o p env term
  asks (one_context o p env kind key) = use_context web o p env kind key
  asks (environments o p term) = use_environments web o p term
  asks (flags o p) = use_flags o p
  asks (flag_lifecycle o p) = use_flag_lifecycle o p
  asks (env_flags o p env term) = use_env_flags web o p env term
  asks (one_flag o p flag_key) = use_flag o p flag_key
  asks (flag_config o p flag_key env) = use_flag_config o p flag_key env
  asks (scheduled_changes o p flag_key env status) =
      use_scheduled_changes web o p flag_key env status
  asks (triggers o p flag_key env) = use_triggers o p flag_key env
  asks (members o) = use_members o
  asks organizations = use_organizations
  asks (projects o) = use_projects o
  asks (project o p) = use_project o p
  asks (roles o) = use_roles o
  asks permissions = use_permissions
  asks (sdk_keys o p env) = use_sdk_keys o p env
  asks (segments o p term) = use_segments web o p term
  asks (one_segment o p segment_key) = use_segment o p segment_key
  asks setup_status = use_setup_status
  asks users = use_users
  asks (webhooks o) = use_webhooks o
  asks (webhook_deliveries o id enabled) = use_webhook_deliveries o id enabled

  abbrev pub key_of : View → Key
  key_of v = (asks v).query_key

-- A mutation that succeeded.
pub data Event (N : Type 0) : Type 0 where
  create_change : String → String → String → String → Json N → Json N → Event N
  review_change : String → String → Review → Json N → Event N
  login : Json N → SignedIn N → Event N
  create_environment : String → String → Json N → Json N → Event N
  toggle_env_flag : String → String → String → FlagSwitch → Json N → Event N
  create_flag : String → String → CreateFlagInput N → Json N → Event N
  toggle_flag : String → String → String → EnvSwitch → Json N → Event N
  patch_flag_config : String → String → String → String → Json N → Json N → Event N
  delete_flag : String → String → String → Unit {0} → Event N
  create_scheduled_change : String → String → String → String → Json N → Json N → Event N
  cancel_scheduled_change : String → String → String → Json N → Event N
  create_trigger : String → String → String → String → Json N → Json N → Event N
  set_trigger_enabled : String → String → Enabling → Json N → Event N
  reset_trigger : String → String → String → Json N → Event N
  delete_trigger : String → String → String → Unit {0} → Event N
  add_member : String → Json N → Json N → Event N
  grant_project_role : String → String → Json N → Json N → Event N
  delete_organization : String → Unit {0} → Event N
  create_project : String → Json N → Json N → Event N
  update_project : String → String → String → Json N → Event N
  delete_project : String → String → Unit {0} → Event N
  create_role : String → Json N → Json N → Event N
  create_sdk_key : String → String → String → Json N → Json N → Event N
  revoke_sdk_key : String → String → String → String → Unit {0} → Event N
  create_segment : String → String → CreateSegmentInput → Json N → Event N
  save_segment : String → String → String → Json N → Json N → Event N
  delete_segment : String → String → String → Unit {0} → Event N
  complete_setup : Json N → SignedIn N → Event N
  create_user : Json N → Json N → Event N
  update_user : UserUpdate N → Json N → Event N
  delete_user : String → Unit {0} → Event N
  create_webhook : String → Json N → Json N → Event N
  set_webhook_enabled : String → Enabling → Json N → Event N
  reset_webhook_secret : String → String → Json N → Event N
  test_webhook : String → String → Json N → Event N
  delete_webhook : String → String → Unit {0} → Event N

module _ {N : Type 0} where
  -- The call that it was.
  abbrev pub call_of : Event N → Call N
  call_of (create_change o p flag env input r) = (use_create_change o p flag env).mutation_fn input
  call_of (review_change o p review r) = (use_review_change o p).mutation_fn review
  call_of (login input r) = (use_login).mutation_fn input
  call_of (create_environment o p input r) = (use_create_environment o p).mutation_fn input
  call_of (toggle_env_flag o p env v r) = (use_toggle_env_flag o p env).mutation_fn v
  call_of (create_flag o p input r) = (use_create_flag o p).mutation_fn input
  call_of (toggle_flag o p flag v r) = (use_toggle_flag o p flag).mutation_fn v
  call_of (patch_flag_config o p flag env instructions r) =
      (use_patch_flag_config o p flag env).mutation_fn instructions
  call_of (delete_flag o p flag r) = (use_delete_flag o p).mutation_fn flag
  call_of (create_scheduled_change o p flag env input r) =
      (use_create_scheduled_change o p flag env).mutation_fn input
  call_of (cancel_scheduled_change o p id r) = (use_cancel_scheduled_change o p).mutation_fn id
  call_of (create_trigger o p flag env input r) =
      (use_create_trigger o p flag env).mutation_fn input
  call_of (set_trigger_enabled o p v r) = (use_set_trigger_enabled o p).mutation_fn v
  call_of (reset_trigger o p id r) = (use_reset_trigger o p).mutation_fn id
  call_of (delete_trigger o p id r) = (use_delete_trigger o p).mutation_fn id
  call_of (add_member o input r) = (use_add_member o).mutation_fn input
  call_of (grant_project_role o p input r) = (use_grant_project_role o p).mutation_fn input
  call_of (delete_organization o r) = (use_delete_organization).mutation_fn o
  call_of (create_project o input r) = (use_create_project o).mutation_fn input
  call_of (update_project o p name r) = (use_update_project o p).mutation_fn name
  call_of (delete_project o p r) = (use_delete_project o).mutation_fn p
  call_of (create_role o input r) = (use_create_role o).mutation_fn input
  call_of (create_sdk_key o p env input r) = (use_create_sdk_key o p env).mutation_fn input
  call_of (revoke_sdk_key o p env id r) = (use_revoke_sdk_key o p env).mutation_fn id
  call_of (create_segment o p input r) = (use_create_segment o p).mutation_fn input
  call_of (save_segment o p segment body r) = (use_save_segment o p segment).mutation_fn body
  call_of (delete_segment o p segment r) = (use_delete_segment o p).mutation_fn segment
  call_of (complete_setup input r) = (use_complete_setup).mutation_fn input
  call_of (create_user input r) = (use_create_user).mutation_fn input
  call_of (update_user v r) = (use_update_user).mutation_fn v
  call_of (delete_user id r) = (use_delete_user).mutation_fn id
  call_of (create_webhook o input r) = (use_create_webhook o).mutation_fn input
  call_of (set_webhook_enabled o v r) = (use_set_webhook_enabled o).mutation_fn v
  call_of (reset_webhook_secret o id r) = (use_reset_webhook_secret o).mutation_fn id
  call_of (test_webhook o id r) = (use_test_webhook o).mutation_fn id
  call_of (delete_webhook o id r) = (use_delete_webhook o).mutation_fn id

  -- What it does to the cache and to the session.
  abbrev pub effects : Event N → List (Effect N)
  effects (create_change o p flag env input r) = (use_create_change o p flag env).on_success r input
  effects (review_change o p review r) = (use_review_change o p).on_success r review
  effects (login input r) = (use_login).on_success r input
  effects (create_environment o p input r) = (use_create_environment o p).on_success r input
  effects (toggle_env_flag o p env v r) = (use_toggle_env_flag o p env).on_success r v
  effects (create_flag o p input r) = (use_create_flag o p).on_success r input
  effects (toggle_flag o p flag v r) = (use_toggle_flag o p flag).on_success r v
  effects (patch_flag_config o p flag env instructions r) =
      (use_patch_flag_config o p flag env).on_success r instructions
  effects (delete_flag o p flag r) = (use_delete_flag o p).on_success r flag
  effects (create_scheduled_change o p flag env input r) =
      (use_create_scheduled_change o p flag env).on_success r input
  effects (cancel_scheduled_change o p id r) = (use_cancel_scheduled_change o p).on_success r id
  effects (create_trigger o p flag env input r) =
      (use_create_trigger o p flag env).on_success r input
  effects (set_trigger_enabled o p v r) = (use_set_trigger_enabled o p).on_success r v
  effects (reset_trigger o p id r) = (use_reset_trigger o p).on_success r id
  effects (delete_trigger o p id r) = (use_delete_trigger o p).on_success r id
  effects (add_member o input r) = (use_add_member o).on_success r input
  effects (grant_project_role o p input r) = (use_grant_project_role o p).on_success r input
  effects (delete_organization o r) = (use_delete_organization).on_success r o
  effects (create_project o input r) = (use_create_project o).on_success r input
  effects (update_project o p name r) = (use_update_project o p).on_success r name
  effects (delete_project o p r) = (use_delete_project o).on_success r p
  effects (create_role o input r) = (use_create_role o).on_success r input
  effects (create_sdk_key o p env input r) = (use_create_sdk_key o p env).on_success r input
  effects (revoke_sdk_key o p env id r) = (use_revoke_sdk_key o p env).on_success r id
  effects (create_segment o p input r) = (use_create_segment o p).on_success r input
  effects (save_segment o p segment body r) = (use_save_segment o p segment).on_success r body
  effects (delete_segment o p segment r) = (use_delete_segment o p).on_success r segment
  effects (complete_setup input r) = (use_complete_setup).on_success r input
  effects (create_user input r) = (use_create_user).on_success r input
  effects (update_user v r) = (use_update_user).on_success r v
  effects (delete_user id r) = (use_delete_user).on_success r id
  effects (create_webhook o input r) = (use_create_webhook o).on_success r input
  effects (set_webhook_enabled o v r) = (use_set_webhook_enabled o).on_success r v
  effects (reset_webhook_secret o id r) = (use_reset_webhook_secret o).on_success r id
  effects (test_webhook o id r) = (use_test_webhook o).on_success r id
  effects (delete_webhook o id r) = (use_delete_webhook o).on_success r id
