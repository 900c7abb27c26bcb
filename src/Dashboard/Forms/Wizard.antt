-- ===== src/Dashboard/Forms/Wizard.antt =====
-- The wizard of the first setup, web/src/features/setup/components/SetupWizard.tsx.
pub mod Laws
use Prim.Native.Char.{code}
use Prim.Native.String
use flag_it.Common.{
  ℕ, ◌+◌, Bool, true, false, not, ◌&&◌, Option, none, some, String, List, [], ◌∷◌, leb, ltb, str_eq,
  if◌then◌else◌,
}
use flag_it.Dashboard.Slug.{slugify}
use flag_it.Dashboard.Forms.{is_filled}

pub data Step : Type 0 where
  first : Step
  second : Step

pub record Form : Type 0 where
  pub step : Step
  pub email : String
  pub password : String
  pub full_name : String
  pub organization_name : String
  pub organization_slug : String
  pub slug_edited : Bool

abbrev pub blank : Form
blank = record {
  step = first;
  email = "";
  password = "";
  full_name = "";
  organization_name = "";
  organization_slug = "";
  slug_edited = false;
}

-- `SetupInput`; the name is undefined if it is empty.
pub record Input : Type 0 where
  pub email : String
  pub password : String
  pub full_name : Option String
  pub organization_name : String
  pub organization_slug : String

-- `text.length`, in UTF-16 code units.
unfoldable pub units : String → ℕ
units String.[] = 0
units (String.◌∷◌ c s) = (if ltb 65535 (code c) then 2 else 1) + units s

abbrev pub account_valid : Form → Bool
account_valid f = is_filled f.email && leb 8 (units f.password)

abbrev pub organization_valid : Form → Bool
organization_valid f = is_filled f.organization_name && is_filled f.organization_slug

abbrev pub or_undefined : String → Option String
or_undefined s = if str_eq s "" then none else some s

abbrev pub input_of : Form → Input
input_of f = record {
  email = f.email;
  password = f.password;
  full_name = or_undefined f.full_name;
  organization_name = f.organization_name;
  organization_slug = f.organization_slug;
}

abbrev pub submit_at : Step → Form → Form × Option Input
submit_at first f = (if account_valid f then record f { step = second } else f, none)
submit_at second f = (f, if organization_valid f then some (input_of f) else none)

-- `handleSubmit`: the next state, and what is handed on.
unfoldable pub submit : Form → Form × Option Input
submit f = submit_at f.step f

pub data Edit : Type 0 where
  types_full_name : String → Edit
  types_email : String → Edit
  types_password : String → Edit
  types_organization_name : String → Edit
  types_organization_slug : String → Edit
  goes_back : Edit
  submits : Edit

module _ (lower : String → String) where
  -- One callback at a step; `submits` is the state that `submit` leaves. The fields of the other step are not rendered.
  abbrev pub edit_at : Step → Edit → Form → Form
  edit_at first (types_full_name v) f = record f { full_name = v }
  edit_at first (types_email v) f = record f { email = v }
  edit_at first (types_password v) f = record f { password = v }
  edit_at second (types_organization_name v) f = record f {
    organization_name = v;
    organization_slug = if f.slug_edited then f.organization_slug else slugify lower v;
  }
  edit_at second (types_organization_slug v) f = record f {
    slug_edited = true;
    organization_slug = slugify lower v;
  }
  edit_at second goes_back f = record f { step = first }
  edit_at s submits f = (submit_at s f).0
  edit_at s e f = f

  unfoldable pub edit : Edit → Form → Form
  edit e f = edit_at f.step e f

  unfoldable pub edit_all : List Edit → Form → Form
  edit_all [] f = f
  edit_all (e ∷ edits) f = edit_all edits (edit e f)
