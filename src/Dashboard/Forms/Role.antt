-- ===== src/Dashboard/Forms/Role.antt =====
-- The dialog of a new role, web/src/features/roles/components/CreateRoleDialog.tsx: its form, and the
-- groups in which it shows the permissions.
pub mod Laws
use flag_it.Common.{
  Bool, true, false, ◌&&◌, Option, none, some, String, List, [], ◌∷◌, ◌++◌, length, ltb, str_eq,
  if◌then◌else◌,
}
use flag_it.Dashboard.Trim.{trim}
use flag_it.Dashboard.Slug.{slugify}
use flag_it.Dashboard.Forms.{is_filled, toggled}

pub record Form : Type 0 where
  pub name : String
  pub key : String
  pub key_edited : Bool
  pub description : String
  pub scope : String
  pub selected : List String

-- The initial state, and `reset`.
abbrev pub blank : Form
blank = record {
  name = "";
  key = "";
  key_edited = false;
  description = "";
  scope = "project";
  selected = [];
}

-- `CreateRoleInput`
pub record Input : Type 0 where
  pub key : String
  pub name : String
  pub description : String
  pub scope : String
  pub permissions : List String

pub data Edit : Type 0 where
  changes_open : Bool → Edit
  types_name : String → Edit
  types_key : String → Edit
  types_description : String → Edit
  picks_scope : String → Edit
  toggles : String → Edit

abbrev pub can_submit : Form → Bool
can_submit f = is_filled f.name && (is_filled f.key && ltb 0 (length f.selected))

abbrev pub input_of : Form → Input
input_of f = record {
  key = f.key;
  name = f.name;
  description = trim f.description;
  scope = f.scope;
  permissions = f.selected;
}

-- `handleSubmit`
unfoldable pub submit : Form → Option Input
submit f = if can_submit f then some (input_of f) else none

module _ (lower : String → String) where
  -- One callback.
  unfoldable pub edit : Edit → Form → Form
  edit (changes_open next) f = if next then f else blank
  edit (types_name v) f = record f {
    name = v;
    key = if f.key_edited then f.key else slugify lower v;
  }
  edit (types_key v) f = record f { key_edited = true; key = slugify lower v }
  edit (types_description v) f = record f { description = v }
  edit (picks_scope v) f = record f { scope = v }
  edit (toggles permission) f = record f { selected = toggled permission f.selected }

  unfoldable pub edit_all : List Edit → Form → Form
  edit_all [] f = f
  edit_all (e ∷ edits) f = edit_all edits (edit e f)

-- `map.set(resource, [...(map.get(resource) ?? []), p])`: a resource that is there keeps its place.
abbrev pub add_to : String → String → List (String × List String) → List (String × List String)
add_to resource p [] = (resource, p ∷ []) ∷ []
add_to resource p ((r, ps) ∷ groups) =
    let rest = add_to resource p groups in
    if str_eq r resource then (r, ps ++ p ∷ []) ∷ groups else (r, ps) ∷ rest

-- The loop of `groupByResource`; the text before the first dot of a permission is `resource_of`.
abbrev pub add_groups :
    (String → String) → List String → List (String × List String) → List (String × List String)
add_groups resource_of [] groups = groups
add_groups resource_of (p ∷ ps) groups = add_groups resource_of ps (add_to (resource_of p) p groups)

unfoldable pub group_by_resource : (String → String) → List String → List (String × List String)
group_by_resource resource_of permissions = add_groups resource_of permissions []
