-- ===== src/Dashboard/SegmentEditor.antt =====
-- The editor of a segment, web/src/features/segments/components: SegmentEditor.tsx, with
-- SegmentTargetsEditor.tsx, SegmentRulesEditor.tsx, RuleEditor.tsx and ClauseEditor.tsx, whose
-- callbacks edit its state.
pub mod Laws
pub mod Served
mod Tests
use flag_it.Common.{
  ℕ, zero, suc, Bool, true, false, not, ◌||◌, Option, none, some, String, List, [], ◌∷◌, ◌++◌,
  filterb, any, str_eq, if◌then◌else◌,
}
use flag_it.Sdk.Json.{Json}
use flag_it.Flags.{Clause, Segment, SegmentRule, SegmentTarget}
use flag_it.Dashboard.Api.{◌<>◌}
use flag_it.Dashboard.Trim.{trim}
use flag_it.Dashboard.Clauses.{JsonText, parse_values}

-- `xs.map((x, j) => (j === i ? x' : x))`
unfoldable pub changed_at : {A : Type 0} → ℕ → (A → A) → List A → List A
changed_at i f [] = []
changed_at zero f (x ∷ xs) = f x ∷ xs
changed_at (suc i) f (x ∷ xs) = x ∷ changed_at i f xs

-- `xs.filter((_, j) => j !== i)`
unfoldable pub removed_at : {A : Type 0} → ℕ → List A → List A
removed_at i [] = []
removed_at zero (x ∷ xs) = xs
removed_at (suc i) (x ∷ xs) = x ∷ removed_at i xs

-- `keys.join(' ')`
abbrev pub join_spaces : List String → String
join_spaces [] = ""
join_spaces (t ∷ []) = t
join_spaces (t ∷ u ∷ ts) = t <> " " <> join_spaces (u ∷ ts)

-- `add` of the editor of keys, of its draft.
unfoldable pub add_key : String → List String → List String
add_key draft values =
    let key = trim draft in
    if str_eq key "" || any (str_eq key) values then values else values ++ key ∷ []

-- The callback of the button that removes a key.
unfoldable pub remove_key : String → List String → List String
remove_key v values = filterb (λ x. not (str_eq x v)) values

-- The edits of one clause.
pub data ClauseEdit : Type 0 where
  types_context_kind : String → ClauseEdit
  types_attribute : String → ClauseEdit
  picks_op : String → ClauseEdit
  types_values : String → ClauseEdit
  checks_negate : Bool → ClauseEdit

-- The edits of one rule.
pub data RuleEdit : Type 0 where
  changes_clause : ℕ → ClauseEdit → RuleEdit
  removes_clause : ℕ → RuleEdit
  adds_clause : RuleEdit

pub data Edit : Type 0 where
  includes_key : String → Edit
  drops_included : String → Edit
  excludes_key : String → Edit
  drops_excluded : String → Edit
  changes_rule : ℕ → RuleEdit → Edit
  removes_rule : ℕ → Edit
  adds_rule : Edit

-- `SaveSegmentInput`
pub record SaveInput (V : Type 0) : Type 0 where
  pub name : String
  pub description : String
  pub included : List String
  pub excluded : List String
  pub included_contexts : List SegmentTarget
  pub excluded_contexts : List SegmentTarget
  pub rules : List (SegmentRule V)

pub record Editor (V : Type 0) : Type 0 where
  pub included : List String
  pub excluded : List String
  pub rules : List (SegmentRule V)

module _ {V : Type 0} where
  -- The initial state.
  abbrev pub open_editor : Segment V → Editor V
  open_editor s = record { included = s.included; excluded = s.excluded; rules = s.rules }

  abbrev pub new_clause : Clause V
  new_clause = record {
    context_kind = some "user";
    attribute = some "";
    op = "in";
    values = [];
    negate = some false;
  }

  abbrev pub new_rule : SegmentRule V
  new_rule = record {
    id = none;
    clauses = new_clause ∷ [];
    weight = none;
    bucket_by = none;
    rollout_context_kind = none;
  }

  -- `dirty`, with `JSON.stringify` of the rules as a parameter.
  unfoldable pub dirty : (List (SegmentRule V) → String) → Segment V → Editor V → Bool
  dirty stringify s e =
      not (str_eq (join_spaces e.included) (join_spaces s.included))
      || (not (str_eq (join_spaces e.excluded) (join_spaces s.excluded))
          || not (str_eq (stringify e.rules) (stringify s.rules)))

  -- `handleSave`
  unfoldable pub save : Segment V → Editor V → SaveInput V
  save s e = record {
    name = s.name;
    description = s.description;
    included = e.included;
    excluded = e.excluded;
    included_contexts = s.included_contexts;
    excluded_contexts = s.excluded_contexts;
    rules = e.rules;
  }

module _ {N : Type 0} (texts : JsonText N) where
  unfoldable pub edit_clause : ClauseEdit → Clause (Json N) → Clause (Json N)
  edit_clause (types_context_kind v) c = record c { context_kind = some v }
  edit_clause (types_attribute v) c = record c { attribute = some v }
  edit_clause (picks_op v) c = record c { op = v }
  edit_clause (types_values v) c = record c { values = parse_values texts v }
  edit_clause (checks_negate v) c = record c { negate = some v }

  unfoldable pub edit_rule : RuleEdit → SegmentRule (Json N) → SegmentRule (Json N)
  unfolding changed_at removed_at edit_clause
  edit_rule (changes_clause i e) r = record r { clauses = changed_at i (edit_clause e) r.clauses }
  edit_rule (removes_clause i) r = record r { clauses = removed_at i r.clauses }
  edit_rule adds_clause r = record r { clauses = r.clauses ++ new_clause ∷ [] }

  -- One callback.
  unfoldable pub edit : Edit → Editor (Json N) → Editor (Json N)
  unfolding changed_at removed_at edit_rule add_key remove_key
  edit (includes_key draft) e = record e { included = add_key draft e.included }
  edit (drops_included v) e = record e { included = remove_key v e.included }
  edit (excludes_key draft) e = record e { excluded = add_key draft e.excluded }
  edit (drops_excluded v) e = record e { excluded = remove_key v e.excluded }
  edit (changes_rule i r) e = record e { rules = changed_at i (edit_rule r) e.rules }
  edit (removes_rule i) e = record e { rules = removed_at i e.rules }
  edit adds_rule e = record e { rules = e.rules ++ new_rule ∷ [] }

  unfoldable pub edit_all : List Edit → Editor (Json N) → Editor (Json N)
  edit_all [] e = e
  edit_all (d ∷ edits) e = edit_all edits (edit d e)
