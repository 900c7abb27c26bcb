-- ===== src/Dashboard/Forms/Webhook.antt =====
-- The dialog of a new webhook, web/src/features/webhooks/components/CreateWebhookDialog.tsx.
pub mod Laws
use flag_it.Common.{
  Bool, true, false, ◌&&◌, ◌||◌, Option, none, some, String, List, [], ◌∷◌, length, ltb,
  if◌then◌else◌,
}
use flag_it.Dashboard.Trim.{trim}
use flag_it.Dashboard.Forms.{is_filled, toggled}

pub record Form : Type 0 where
  pub open_now : Bool
  pub url : String
  pub description : String
  pub all_events : Bool
  pub selected : List String

abbrev pub blank : Form
blank = record { open_now = false; url = ""; description = ""; all_events = true; selected = [] }

-- `CreateWebhookInput`
pub record Input : Type 0 where
  pub url : String
  pub event_types : List String
  pub description : String

pub data Edit : Type 0 where
  changes_open : Bool → Edit
  types_url : String → Edit
  types_description : String → Edit
  checks_all : Bool → Edit
  toggles : String → Edit
  submits : Edit

-- `EVENT_TYPE_ALL`
abbrev pub event_type_all : String
event_type_all = "*"

abbrev pub can_submit : Form → Bool
can_submit f = is_filled f.url && (f.all_events || ltb 0 (length f.selected))

abbrev pub input_of : Form → Input
input_of f = record {
  url = trim f.url;
  event_types = if f.all_events then event_type_all ∷ [] else f.selected;
  description = trim f.description;
}

-- `handleSubmit`: what is handed on.
unfoldable pub submit : Form → Option Input
submit f = if can_submit f then some (input_of f) else none

-- One callback. Opening the dialog sets the form back; handing on closes it.
unfoldable pub edit : Edit → Form → Form
edit (changes_open next) f =
    if next then record blank { open_now = true } else record f { open_now = false }
edit (types_url v) f = record f { url = v }
edit (types_description v) f = record f { description = v }
edit (checks_all v) f = record f { all_events = v }
edit (toggles event) f = record f { selected = toggled event f.selected }
edit submits f = if can_submit f then record f { open_now = false } else f

unfoldable pub edit_all : List Edit → Form → Form
edit_all [] f = f
edit_all (e ∷ edits) f = edit_all edits (edit e f)
