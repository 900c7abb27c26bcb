-- ===== src/Dashboard/FlagPage.antt =====
-- The page of a flag, web/src/features/flags/FlagDetailPage.tsx: the instructions that its callbacks
-- send to the configuration of the environment, and the dialog that proposes a change,
-- RequestChangeDialog.tsx in its folder components.
pub mod Laws
pub mod Typed
mod Tests
use flag_it.Common.{
  ℕ, Bool, true, false, not, Option, none, some, String, List, [], ◌∷◌, str_eq, if◌then◌else◌,
}
use flag_it.Flags.{Clause, FlagInstruction, VariationOrRollout}
use flag_it.Dashboard.Trim.{trim}

-- `picked || environments.data?.[0]?.key || ''`, of the keys of the environments.
abbrev pub first_key : Option (List String) → String
first_key none = ""
first_key (some []) = ""
first_key (some (key ∷ keys)) = key

abbrev pub shown_env : String → Option (List String) → String
shown_env picked keys = if str_eq picked "" then first_key keys else picked

-- What the dialog proposes: the switch, and a comment. The initial choice is the other state.
pub record Proposal : Type 0 where
  pub target : Bool
  pub comment : String

abbrev pub reset : Bool → Proposal
reset current_on = record { target = not current_on; comment = "" }

-- The callbacks of the page.
pub data Action (V : Type 0) : Type 0 where
  sets_fallthrough : ℕ → Action V
  sets_off_variation : ℕ → Action V
  adds_target : ℕ → String → Action V
  removes_target : ℕ → String → Action V
  adds_rule : List (Clause V) → VariationOrRollout → Action V
  updates_rule : String → List (Clause V) → VariationOrRollout → Action V
  removes_rule : String → Action V
  reorders_rules : List String → Action V

module _ {V : Type 0} where
  -- An object with a kind alone.
  abbrev pub of_kind : String → FlagInstruction V
  of_kind kind = record {
    kind = kind;
    variation = none;
    context_kind = none;
    values = none;
    clauses = none;
    rollout = none;
    rule_id = none;
    rule_ids = none;
  }

  -- What the dialog hands on: the instructions and the comment.
  unfoldable pub submit : Proposal → List (FlagInstruction V) × String
  submit p = (of_kind (if p.target then "turnFlagOn" else "turnFlagOff") ∷ [], trim p.comment)

  -- What each hands to `patch.mutate`.
  unfoldable pub sends : Action V → List (FlagInstruction V)
  sends (sets_fallthrough v) =
      record (of_kind "updateFallthroughVariation") { variation = some v } ∷ []
  sends (sets_off_variation v) = record (of_kind "updateOffVariation") { variation = some v } ∷ []
  sends (adds_target variation key) =
      record (of_kind "addTargets") {
        context_kind = some "user";
        variation = some variation;
        values = some (key ∷ []);
      }
      ∷ []
  sends (removes_target variation key) =
      record (of_kind "removeTargets") {
        context_kind = some "user";
        variation = some variation;
        values = some (key ∷ []);
      }
      ∷ []
  sends (adds_rule clauses served) =
      record (of_kind "addRule") {
        clauses = some clauses;
        variation = served.variation;
        rollout = served.rollout;
      }
      ∷ []
  sends (updates_rule x clauses served) =
      record (of_kind "updateRule") {
        rule_id = some x;
        clauses = some clauses;
        variation = served.variation;
        rollout = served.rollout;
      }
      ∷ []
  sends (removes_rule x) = record (of_kind "removeRule") { rule_id = some x } ∷ []
  sends (reorders_rules ids) = record (of_kind "reorderRules") { rule_ids = some ids } ∷ []
