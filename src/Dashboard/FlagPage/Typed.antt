-- ===== src/Dashboard/FlagPage/Typed.antt =====
-- What the callbacks of the page of a flag, called in a row, make rules serve.
use mathlib.Core.Path.{subst}
use flag_it.Common.{ℕ, String, List, [], ◌∷◌, ◌≡◌, sym, All}
use flag_it.Flags.{VariationOrRollout}
use flag_it.Backend.Instructions.{Applied, new_config, kind_of, apply_instructions}
use flag_it.Backend.Instructions.Typed.{IsOneOf, IsTyped, Serves, apply_instructions-IsTyped}
use flag_it.Dashboard.RuleForm.{Form, by_variation, by_rollout, serve_by, served}
use flag_it.Dashboard.FlagPage.{
  Action, sets_fallthrough, sets_off_variation, adds_target, removes_target, adds_rule,
  updates_rule, removes_rule, reorders_rules, sends,
}

module _ {V : Type 0} where
  -- The callbacks in a row, each of whose instructions the backend applies.
  unfoldable pub send_all : (ℕ → String) → List (Action V) → Applied V → Applied V
  unfolding sends apply_instructions
  send_all uuid [] s = s
  send_all uuid (a ∷ actions) s = send_all uuid actions (apply_instructions uuid (sends a) s)

  -- What a rule is to serve comes from the form for rules.
  abbrev pub IsFromForm : Action V → Type 0
  IsFromForm (adds_rule clauses serve) = (f : Form V) × (serve ≡ served f)
  IsFromForm (updates_rule x clauses serve) = (f : Form V) × (serve ≡ served f)
  IsFromForm a = Unit

  served-IsOneOf : (f : Form V) → IsOneOf (served f).variation (served f).rollout
  unfolding served
  served-IsOneOf f =
      elim f.serve as (λ m. IsOneOf (serve_by m f).variation (serve_by m f).rollout) [
        | by_variation ↦ tt
        | by_rollout ↦ tt
      ]

  from_form :
      (serve : VariationOrRollout)
      → ((f : Form V) × (serve ≡ served f))
      → IsOneOf serve.variation serve.rollout
  from_form serve (f, e) = subst (λ s. IsOneOf s.variation s.rollout) (sym e) (served-IsOneOf f)

  sends-Serves :
      (a : Action V) → IsFromForm a → All (λ ins. Serves (kind_of ins.kind) ins) (sends a)
  unfolding sends kind_of
  sends-Serves (adds_rule clauses serve) h = (from_form serve h, tt)
  sends-Serves (updates_rule x clauses serve) h = (from_form serve h, tt)
  sends-Serves (sets_fallthrough v) h = (tt, tt)
  sends-Serves (sets_off_variation v) h = (tt, tt)
  sends-Serves (adds_target v key) h = (tt, tt)
  sends-Serves (removes_target v key) h = (tt, tt)
  sends-Serves (removes_rule x) h = (tt, tt)
  sends-Serves (reorders_rules ids) h = (tt, tt)

  kept :
      (uuid : ℕ → String) (actions : List (Action V)) (s : Applied V)
      → All IsFromForm actions
      → IsTyped s.config
      → IsTyped (send_all uuid actions s).config
  unfolding send_all
  kept uuid [] s from h = h
  kept uuid (a ∷ actions) s from h =
      kept uuid actions (apply_instructions uuid (sends a) s) from.1
        (apply_instructions-IsTyped uuid (sends a) s (sends-Serves a from.0) h)

  -- Whatever callbacks of the page are called in a row, with what the form for rules hands on, on a new
  -- configuration: every rule, and the default, serves a variation or a rollout and never both, as
  -- the types of the dashboard mean it and do not say it.
  pub send_all-IsTyped :
      (uuid : ℕ → String) (issued : ℕ) (actions : List (Action V))
      → All IsFromForm actions
      → IsTyped (send_all uuid actions (record { config = new_config; issued = issued })).config
  send_all-IsTyped uuid issued actions from =
      kept uuid actions (record { config = new_config; issued = issued }) from
        (record { fallthrough = tt; rules = tt })
