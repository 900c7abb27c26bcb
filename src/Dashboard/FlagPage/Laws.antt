-- ===== src/Dashboard/FlagPage/Laws.antt =====
-- The page and the backend together: what each callback does to the configuration.
use flag_it.Common.{
  ℕ, ◌+◌, false, not, none, some, String, List, [], ◌∷◌, ◌++◌, map, ◌≡◌, refl, str_eq, filterb,
  Bool-cases, inl, inr, arith, ◌&&◌, ◌||◌, if◌then◌else◌,
}
use flag_it.Flags.{Clause, FlagRule, FlagConfig, VariationOrRollout}
use flag_it.Backend.Instructions.{Applied, apply_instructions, when_given}
use flag_it.Backend.Targets.Laws.{
  targeted, same_target, HasDistinctNames, targeted-add_targets, targeted-remove_targets,
}
use flag_it.Backend.Targets.{includes}
use flag_it.Backend.Rules.{has_id, add_rule, remove_rule, update_rule}
use flag_it.Backend.Rules.Named.{is_named, picked, reorder_rules-picked}
use flag_it.Dashboard.FlagPage.{
  reset, submit, Action, sets_fallthrough, sets_off_variation, adds_target, removes_target,
  adds_rule, updates_rule, removes_rule, reorders_rules, sends,
}

includes_one : (key x : String) → includes (key ∷ []) x ≡ str_eq key x
unfolding includes
includes_one key x = ground arith

module _ {V : Type 0} where
  -- The rule of the id serves something else, to the contexts of other clauses.
  abbrev pub rewrite : String → List (Clause V) → VariationOrRollout → FlagRule V → FlagRule V
  rewrite x clauses served r =
      if has_id x r
      then record {
        id = r.id;
        clauses = clauses;
        variation = served.variation;
        rollout = served.rollout;
      }
      else r

  -- What the user means by an action, of the configurations before and after it. The version counts
  -- the change, and what is not named stays as it was. `fresh` is the id of a new rule.
  abbrev pub IsDone : String → Action V → FlagConfig V → FlagConfig V → Type 0
  IsDone fresh (sets_fallthrough v) c d = d ≡ record c {
    fallthrough = record { variation = some v; rollout = none };
    version = c.version + 1;
  }
  IsDone fresh (sets_off_variation v) c d =
      d ≡ record c { off_variation = v; version = c.version + 1 }
  IsDone fresh (adds_target v key) c d =
      (d ≡ record c { targets = d.targets; version = c.version + 1 })
      × ((kind : String) (w : ℕ) (x : String)
          → targeted kind w x d.targets
            ≡ (targeted kind w x c.targets || (same_target "user" v kind w && str_eq key x)))
  IsDone fresh (removes_target v key) c d =
      (d ≡ record c { targets = d.targets; version = c.version + 1 })
      × ((kind : String) (w : ℕ) (x : String)
          → targeted kind w x d.targets
            ≡ (targeted kind w x c.targets && not (same_target "user" v kind w && str_eq key x)))
  IsDone fresh (adds_rule clauses served) c d = d ≡ record c {
    rules =
        c.rules
        ++ record {
          id = some fresh;
          clauses = clauses;
          variation = served.variation;
          rollout = served.rollout;
        }
          ∷ [];
    version = c.version + 1;
  }
  IsDone fresh (updates_rule x clauses served) c d =
      d ≡ record c { rules = map (rewrite x clauses served) c.rules; version = c.version + 1 }
  IsDone fresh (removes_rule x) c d =
      d ≡ record c { rules = filterb (λ r. not (has_id x r)) c.rules; version = c.version + 1 }
  IsDone fresh (reorders_rules ids) c d = d ≡ record c {
    rules = filterb (λ r. not (is_named ids r)) c.rules ++ picked ids c.rules;
    version = c.version + 1;
  }

  -- A rule is named by an id that is not empty.
  abbrev pub IsMeant : Action V → Type 0
  IsMeant (updates_rule x clauses served) = str_eq x "" ≡ false
  IsMeant (removes_rule x) = str_eq x "" ≡ false
  IsMeant a = Unit

  module _ (uuid : ℕ → String) where
    -- Each callback of the page, sent to the backend, does to the configuration what it is for, adds
    -- one to the version and leaves all else as it was: the default or the off variation is the one
    -- chosen; the key of the user is targeted for the variation, or is not any more, and no other
    -- key, variation or context kind is touched; the new rule is the last, with a new id; the rules
    -- of the id have the new clauses and serve the new variation or rollout; the rules of the id are
    -- gone and the others stay in their order; a reordering puts the rules that it does not name
    -- first and then those of the ids in turn. No two targets have the same variation and context
    -- kind, and rules are named by ids that are not empty.
    pub sends-IsDone :
        (a : Action V) (s : Applied V)
        → HasDistinctNames s.config.targets
        → IsMeant a
        → IsDone (uuid s.issued) a s.config (apply_instructions uuid (sends a) s).config
    unfolding sends apply_instructions when_given add_rule remove_rule update_rule
    sends-IsDone (sets_fallthrough v) s h m = refl
    sends-IsDone (sets_off_variation v) s h m = refl
    sends-IsDone (adds_target v key) s h m =
        (refl, λ kind w x. rw (targeted-add_targets, includes_one key x) refl)
    sends-IsDone (removes_target v key) s h m = (
      refl,
      λ kind w x.
          rw
            (
              targeted-remove_targets "user" v (key ∷ []) kind w x s.config.targets h,
              includes_one key x,
            )
            refl,
    )
    sends-IsDone (adds_rule clauses served) s h m = refl
    sends-IsDone (updates_rule x clauses served) s h m = rw m refl
    sends-IsDone (removes_rule x) s h m = rw m refl
    sends-IsDone (reorders_rules ids) s h m = rw (reorder_rules-picked ids s.config.rules) refl

    -- The change that the dialog proposes while it is left at its first choice turns the switch over.
    submit-reset :
        (s : Applied V)
        → (apply_instructions uuid (submit (reset s.config.on)).0 s).config.on ≡ not s.config.on
    unfolding submit apply_instructions
    submit-reset s = elim (Bool-cases s.config.on) [ inl on ↦ rw on refl | inr off ↦ rw off refl ]
