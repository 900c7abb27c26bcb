-- ===== src/Backend/Instructions.antt =====
-- `applyInstructions` of web/src/mocks/handlers.ts: the semantic instructions, applied to the
-- configuration of a flag in one environment. `uuid` is `crypto.randomUUID`, and `issued` counts its
-- calls.
pub mod Batch
pub mod Keep
pub mod Toggles
pub mod Typed
use flag_it.Common.{
  ℕ, suc, ◌+◌, Bool, true, false, Option, none, some, String, List, [], ◌∷◌, str_eq, if◌then◌else◌,
}
use flag_it.Flags.{Clause, Rollout, VariationOrRollout, FlagRule, FlagConfig, FlagInstruction}
use flag_it.Backend.Targets.{add_targets, remove_targets}
use flag_it.Backend.Rules.{add_rule, update_rule, remove_rule, reorder_rules}

-- The tests on `ins.kind`.
pub data Kind : Type 0 where
  turn_flag_on : Kind
  turn_flag_off : Kind
  add_a_rule : Kind
  update_a_rule : Kind
  remove_a_rule : Kind
  reorder_the_rules : Kind
  update_off_variation : Kind
  update_fallthrough_variation : Kind
  add_some_targets : Kind
  remove_some_targets : Kind
  other_kind : Kind

unfoldable pub kind_of : String → Kind
kind_of s =
    if str_eq s "turnFlagOn"
    then turn_flag_on
    else if str_eq s "turnFlagOff"
    then turn_flag_off
    else if str_eq s "addRule"
    then add_a_rule
    else if str_eq s "updateRule"
    then update_a_rule
    else if str_eq s "removeRule"
    then remove_a_rule
    else if str_eq s "reorderRules"
    then reorder_the_rules
    else if str_eq s "updateOffVariation"
    then update_off_variation
    else if str_eq s "updateFallthroughVariation"
    then update_fallthrough_variation
    else if str_eq s "addTargets"
    then add_some_targets
    else if str_eq s "removeTargets"
    then remove_some_targets
    else other_kind

-- A text that is truthy.
abbrev pub given : Option String → Option String
given none = none
given (some s) = if str_eq s "" then none else some s

-- `ins.contextKind ?? 'user'`
abbrev pub kind_or_user : Option String → String
kind_or_user none = "user"
kind_or_user (some k) = k

-- An edit that is made if its operand is there.
unfoldable pub when_given : {A S : Type 0} → Option A → (A → S → S) → S → S
when_given none f s = s
when_given (some a) f s = f a s

-- A configuration, and the number of ids that were handed out.
pub record Applied (V : Type 0) : Type 0 where
  pub config : FlagConfig V
  pub issued : ℕ

module _ {V : Type 0} where
  abbrev pub new_config : FlagConfig V
  new_config = record {
    on = false;
    off_variation = 1;
    fallthrough = record { variation = some 0; rollout = none };
    targets = [];
    rules = [];
    version = 1;
  }

  module _ (uuid : ℕ → String) where
    -- The branch of one instruction, with the guards of its kind.
    unfoldable pub apply_kind : Kind → FlagInstruction V → Applied V → Applied V
    unfolding when_given add_rule update_rule remove_rule reorder_rules add_targets remove_targets
    apply_kind turn_flag_on ins s = record s { config = record s.config { on = true } }
    apply_kind turn_flag_off ins s = record s { config = record s.config { on = false } }
    apply_kind add_a_rule ins s =
        when_given ins.clauses
          (λ clauses t. record {
            config = record t.config {
              rules = add_rule (uuid t.issued) clauses ins.variation ins.rollout t.config.rules;
            };
            issued = suc t.issued;
          })
          s
    apply_kind update_a_rule ins s =
        when_given (given ins.rule_id)
          (λ x. when_given ins.clauses (λ clauses t. record t {
            config = record t.config {
              rules = update_rule x clauses ins.variation ins.rollout t.config.rules;
            };
          }))
          s
    apply_kind remove_a_rule ins s =
        when_given (given ins.rule_id)
          (λ x t. record t { config = record t.config { rules = remove_rule x t.config.rules } }) s
    apply_kind reorder_the_rules ins s =
        when_given ins.rule_ids
          (λ order t. record t {
            config = record t.config { rules = reorder_rules order t.config.rules };
          })
          s
    apply_kind update_off_variation ins s =
        when_given ins.variation
          (λ v t. record t { config = record t.config { off_variation = v } }) s
    apply_kind update_fallthrough_variation ins s =
        when_given ins.variation
          (λ v t. record t {
            config = record t.config {
              fallthrough = record { variation = some v; rollout = none };
            };
          })
          s
    apply_kind add_some_targets ins s =
        when_given ins.variation
          (λ v. when_given ins.values (λ values t. record t {
            config = record t.config {
              targets = add_targets (kind_or_user ins.context_kind) v values t.config.targets;
            };
          }))
          s
    apply_kind remove_some_targets ins s =
        when_given ins.variation
          (λ v. when_given ins.values (λ values t. record t {
            config = record t.config {
              targets = remove_targets (kind_or_user ins.context_kind) v values t.config.targets;
            };
          }))
          s
    apply_kind other_kind ins s = s

    abbrev pub apply_one : FlagInstruction V → Applied V → Applied V
    apply_one ins s = apply_kind (kind_of ins.kind) ins s

    -- The loop over the instructions.
    unfoldable pub apply_all : List (FlagInstruction V) → Applied V → Applied V
    unfolding apply_kind kind_of when_given
    apply_all [] s = s
    apply_all (ins ∷ instructions) s = apply_all instructions (apply_one ins s)

    abbrev pub bump : Applied V → Applied V
    bump s = record s { config = record s.config { version = s.config.version + 1 } }

    unfoldable pub apply_instructions : List (FlagInstruction V) → Applied V → Applied V
    unfolding apply_all
    apply_instructions instructions s = bump (apply_all instructions s)
