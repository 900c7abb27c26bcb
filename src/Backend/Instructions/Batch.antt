-- ===== src/Backend/Instructions/Batch.antt =====
-- Instructions that are applied together, and the same instructions applied in two batches.
use flag_it.Common.{ℕ, Option, none, some, String, List, [], ◌∷◌, ◌++◌, ◌≡◌, refl, sym, ap, ◌∙◌}
use flag_it.Flags.{FlagInstruction}
use flag_it.Backend.Instructions.{
  Kind, turn_flag_on, turn_flag_off, add_a_rule, update_a_rule, remove_a_rule, reorder_the_rules,
  update_off_variation, update_fallthrough_variation, add_some_targets, remove_some_targets,
  other_kind, kind_of, given, Applied, when_given, apply_kind, apply_one, apply_all, bump,
  apply_instructions,
}

when_given-commutes :
    {A S : Type 0}
    → (g : S → S) (o : Option A) (f : A → S → S) → ((a : A) (s : S) → f a (g s) ≡ g (f a s))
    → (s : S) → when_given o f (g s) ≡ g (when_given o f s)
unfolding when_given
when_given-commutes g none f commutes s = refl
when_given-commutes g (some a) f commutes s = commutes a s

module _ {V : Type 0} (uuid : ℕ → String) where
  -- No instruction reads the version.
  apply_kind-bump :
      (k : Kind) (ins : FlagInstruction V) (s : Applied V)
      → apply_kind uuid k ins (bump uuid s) ≡ bump uuid (apply_kind uuid k ins s)
  unfolding apply_kind
  apply_kind-bump turn_flag_on ins s = refl
  apply_kind-bump turn_flag_off ins s = refl
  apply_kind-bump add_a_rule ins s =
      when_given-commutes (bump uuid) ins.clauses _ (λ clauses t. refl) s
  apply_kind-bump update_a_rule ins s =
      when_given-commutes (bump uuid) (given ins.rule_id) _
        (λ x. when_given-commutes (bump uuid) ins.clauses _ (λ clauses t. refl)) s
  apply_kind-bump remove_a_rule ins s =
      when_given-commutes (bump uuid) (given ins.rule_id) _ (λ x t. refl) s
  apply_kind-bump reorder_the_rules ins s =
      when_given-commutes (bump uuid) ins.rule_ids _ (λ order t. refl) s
  apply_kind-bump update_off_variation ins s =
      when_given-commutes (bump uuid) ins.variation _ (λ v t. refl) s
  apply_kind-bump update_fallthrough_variation ins s =
      when_given-commutes (bump uuid) ins.variation _ (λ v t. refl) s
  apply_kind-bump add_some_targets ins s =
      when_given-commutes (bump uuid) ins.variation _
        (λ v. when_given-commutes (bump uuid) ins.values _ (λ values t. refl)) s
  apply_kind-bump remove_some_targets ins s =
      when_given-commutes (bump uuid) ins.variation _
        (λ v. when_given-commutes (bump uuid) ins.values _ (λ values t. refl)) s
  apply_kind-bump other_kind ins s = refl

  apply_all-bump :
      (instructions : List (FlagInstruction V)) (s : Applied V)
      → apply_all uuid instructions (bump uuid s) ≡ bump uuid (apply_all uuid instructions s)
  unfolding apply_all
  apply_all-bump [] s = refl
  apply_all-bump (ins ∷ instructions) s =
      ap (apply_all uuid instructions) (apply_kind-bump (kind_of ins.kind) ins s)
      ∙ apply_all-bump instructions (apply_one uuid ins s)

  apply_all-append :
      (xs ys : List (FlagInstruction V)) (s : Applied V)
      → apply_all uuid (xs ++ ys) s ≡ apply_all uuid ys (apply_all uuid xs s)
  unfolding apply_all
  apply_all-append [] ys s = refl
  apply_all-append (ins ∷ xs) ys s = apply_all-append xs ys (apply_one uuid ins s)

  -- Two batches of instructions leave what the instructions leave as one batch, with the version
  -- one higher.
  pub apply_instructions-append :
      (xs ys : List (FlagInstruction V)) (s : Applied V)
      → apply_instructions uuid ys (apply_instructions uuid xs s)
        ≡ bump uuid (apply_instructions uuid (xs ++ ys) s)
  unfolding apply_instructions
  apply_instructions-append xs ys s =
      ap (bump uuid)
        (apply_all-bump ys (apply_all uuid xs s) ∙ ap (bump uuid) (sym (apply_all-append xs ys s)))
