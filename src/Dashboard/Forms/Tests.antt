-- ===== src/Dashboard/Forms/Tests.antt =====
-- The forms, filled in.
use flag_it.Common.{◌≡◌, refl, false, none, some, String, List, [], ◌∷◌}
use flag_it.Dashboard.Trim.{trim}
use flag_it.Dashboard.Slug.{slugify}
use flag_it.Dashboard.Forms.{toggled}
use flag_it.Dashboard.Forms.Flag
use flag_it.Dashboard.Forms.Flag.Laws.{submit-IsSound}
use flag_it.Dashboard.Forms.Wizard
use flag_it.Dashboard.Forms.Wizard.Laws.{submit-IsSound_wizard}
use flag_it.Dashboard.Forms.Role
use flag_it.Dashboard.Forms.Webhook

-- `toLowerCase`, of texts in lower case.
abbrev same : String → String
same s = s

abbrev flag_edits : List Flag.Edit
flag_edits =
    Flag.types_name "dark  mode!"
    ∷ Flag.picks_type Flag.string
    ∷ Flag.types_variation 0 " on"
    ∷ Flag.types_variation 1 "off"
    ∷ Flag.adds_variation
    ∷ []

abbrev flag_input : Flag.Input
flag_input = record {
  key = "dark-mode";
  name = "dark  mode!";
  variations = Flag.texts ("on" ∷ "off" ∷ []);
  temporary = false;
}

submit-IsSound_example : Flag.Laws.IsSound flag_input
unfolding Flag.submit Flag.edit_all Flag.edit slugify trim
submit-IsSound_example = submit-IsSound same flag_edits {input = flag_input} refl

abbrev wizard_edits : List Wizard.Edit
wizard_edits =
    Wizard.types_email "ada@example.com"
    ∷ Wizard.types_password "12345678"
    ∷ Wizard.submits
    ∷ Wizard.types_organization_name "acme inc."
    ∷ Wizard.goes_back
    ∷ Wizard.submits
    ∷ []

abbrev wizard_input : Wizard.Input
wizard_input = record {
  email = "ada@example.com";
  password = "12345678";
  full_name = none;
  organization_name = "acme inc.";
  organization_slug = "acme-inc";
}

submit-IsSound_wizard_example : Wizard.Laws.IsSound wizard_input
unfolding Wizard.submit Wizard.edit_all Wizard.edit Wizard.units slugify trim
submit-IsSound_wizard_example = submit-IsSound_wizard same wizard_edits {input = wizard_input} refl

abbrev role_edits : List Role.Edit
role_edits =
    Role.types_name "release manager"
    ∷ Role.toggles "flag.read"
    ∷ Role.toggles "flag.write"
    ∷ Role.toggles "flag.read"
    ∷ []

abbrev role_input : Role.Input
role_input = record {
  key = "release-manager";
  name = "release manager";
  description = "";
  scope = "project";
  permissions = "flag.write" ∷ [];
}

role_test : Role.submit (Role.edit_all same role_edits Role.blank) ≡ some role_input
unfolding Role.submit Role.edit_all Role.edit toggled slugify trim
role_test = refl

abbrev webhook_edits : List Webhook.Edit
webhook_edits =
    Webhook.types_url " https://example.com"
    ∷ Webhook.checks_all false
    ∷ Webhook.toggles "flag.saved"
    ∷ []

abbrev webhook_input : Webhook.Input
webhook_input = record {
  url = "https://example.com";
  event_types = "flag.saved" ∷ [];
  description = "";
}

webhook_test : Webhook.submit (Webhook.edit_all webhook_edits Webhook.blank) ≡ some webhook_input
unfolding Webhook.submit Webhook.edit_all Webhook.edit toggled trim
webhook_test = refl

-- A dash that is typed at the end of a key is taken away at once, so no key with a dash can be typed
-- from left to right.
typed_dash_test :
    (Flag.edit_all same (Flag.types_key "dark" ∷ Flag.types_key "dark-" ∷ []) Flag.blank).key
    ≡ "dark"
unfolding Flag.edit_all Flag.edit slugify trim
typed_dash_test = refl

groups_test :
    Role.group_by_resource (λ p. p) ("flag" ∷ "role" ∷ "flag" ∷ [])
    ≡ ("flag", "flag" ∷ "flag" ∷ []) ∷ ("role", "role" ∷ []) ∷ []
unfolding Role.group_by_resource
groups_test = refl
