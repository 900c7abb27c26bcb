-- ===== src/Dashboard/Forms/Flag.antt =====
-- The dialog of a new flag, web/src/features/flags/components/CreateFlagDialog.tsx.
pub mod Laws
use flag_it.Common.{
  ℕ, zero, suc, Bool, true, false, not, ◌&&◌, ◌||◌, Option, none, some, String, List, [], ◌∷◌, ◌++◌,
  map, filterb, length, leb, str_eq, if◌then◌else◌,
}
use flag_it.Dashboard.Trim.{trim}
use flag_it.Dashboard.Slug.{slugify}
use flag_it.Dashboard.Forms.{is_filled}

pub data FlagType : Type 0 where
  boolean : FlagType
  string : FlagType

pub record Form : Type 0 where
  pub name : String
  pub key : String
  pub key_edited : Bool
  pub type : FlagType
  pub string_vars : List String
  pub temporary : Bool

-- The initial state, and `reset`.
abbrev pub blank : Form
blank = record {
  name = "";
  key = "";
  key_edited = false;
  type = boolean;
  string_vars = "" ∷ "" ∷ [];
  temporary = false;
}

pub data Edit : Type 0 where
  changes_open : Bool → Edit
  types_name : String → Edit
  types_key : String → Edit
  picks_type : FlagType → Edit
  types_variation : ℕ → String → Edit
  removes_variation : ℕ → Edit
  adds_variation : Edit
  checks_temporary : Bool → Edit

-- `prev.map((x, j) => (j === i ? value : x))`
abbrev pub replaced : ℕ → String → List String → List String
replaced i value [] = []
replaced zero value (x ∷ xs) = value ∷ xs
replaced (suc i) value (x ∷ xs) = x ∷ replaced i value xs

-- `prev.filter((_, j) => j !== i)`
abbrev pub without : ℕ → List String → List String
without i [] = []
without zero (x ∷ xs) = xs
without (suc i) (x ∷ xs) = x ∷ without i xs

-- The variations that are emitted: the two Boolean values, or texts.
pub data Variations : Type 0 where
  true_false : Variations
  texts : List String → Variations

pub record Input : Type 0 where
  pub key : String
  pub name : String
  pub variations : Variations
  pub temporary : Bool

abbrev pub clean_vars : Form → List String
clean_vars f = filterb (λ v. not (str_eq v "")) (map trim f.string_vars)

abbrev pub is_boolean : FlagType → Bool
is_boolean boolean = true
is_boolean string = false

abbrev pub vars_valid : Form → Bool
vars_valid f = is_boolean f.type || leb 2 (length (clean_vars f))

abbrev pub can_submit : Form → Bool
can_submit f = is_filled f.name && (is_filled f.key && vars_valid f)

abbrev pub variations_of : Form → Variations
variations_of f = if is_boolean f.type then true_false else texts (clean_vars f)

-- `handleSubmit`
unfoldable pub submit : Form → Option Input
submit f =
    if can_submit f
    then some (record {
      key = f.key;
      name = f.name;
      variations = variations_of f;
      temporary = f.temporary;
    })
    else none

module _ (lower : String → String) where
  -- `handleNameChange`
  abbrev pub change_name : String → Form → Form
  change_name value f = record f {
    name = value;
    key = if f.key_edited then f.key else slugify lower value;
  }

  -- One callback. A variation is removed only while there are more than two.
  unfoldable pub edit : Edit → Form → Form
  edit (changes_open next) f = if next then f else blank
  edit (types_name value) f = change_name value f
  edit (types_key value) f = record f { key_edited = true; key = slugify lower value }
  edit (picks_type type) f = record f { type = type }
  edit (types_variation i value) f = record f { string_vars = replaced i value f.string_vars }
  edit (removes_variation i) f =
      if leb (length f.string_vars) 2 then f else record f { string_vars = without i f.string_vars }
  edit adds_variation f = record f { string_vars = f.string_vars ++ "" ∷ [] }
  edit (checks_temporary v) f = record f { temporary = v }

  unfoldable pub edit_all : List Edit → Form → Form
  edit_all [] f = f
  edit_all (e ∷ edits) f = edit_all edits (edit e f)
