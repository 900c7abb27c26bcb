-- ===== src/Backend/Instructions/Toggles.antt =====
-- The switch of a flag after instructions.
use flag_it.Common.{
  ℕ, Bool, true, false, Option, none, some, String, List, [], ◌∷◌, ◌≡◌, refl, sym, ap, ◌∙◌,
}
use flag_it.Flags.{FlagInstruction}
use flag_it.Backend.Instructions.{
  Kind, turn_flag_on, turn_flag_off, add_a_rule, update_a_rule, remove_a_rule, reorder_the_rules,
  update_off_variation, update_fallthrough_variation, add_some_targets, remove_some_targets,
  other_kind, kind_of, given, Applied, when_given, apply_kind, apply_one, apply_all,
  apply_instructions,
}

-- What an instruction of the kind turns the switch to.
abbrev pub toggle : Kind → Option Bool
toggle turn_flag_on = some true
toggle turn_flag_off = some false
toggle _ = none

abbrev pub or_else : Option Bool → Bool → Bool
or_else none b = b
or_else (some b) c = b

abbrev pub later : Option Bool → Option Bool → Option Bool
later none o = o
later (some b) o = some b

or_else-later : (o p : Option Bool) (b : Bool) → or_else (later o p) b ≡ or_else o (or_else p b)
or_else-later none p b = refl
or_else-later (some c) p b = refl

-- An edit that leaves a part of the state leaves it if it is made or not.
when_given-leaves :
    {A S B : Type 0}
    → (part : S → B) (o : Option A) (f : A → S → S) → ((a : A) (s : S) → part (f a s) ≡ part s)
    → (s : S) → part (when_given o f s) ≡ part s
unfolding when_given
when_given-leaves part none f leaves s = refl
when_given-leaves part (some a) f leaves s = leaves a s

module _ {V : Type 0} where
  -- The last instruction that is a toggle.
  unfoldable pub last_toggle : List (FlagInstruction V) → Option Bool
  unfolding kind_of
  last_toggle [] = none
  last_toggle (ins ∷ instructions) = later (last_toggle instructions) (toggle (kind_of ins.kind))

  abbrev switch : Applied V → Bool
  switch s = s.config.on

  module _ (uuid : ℕ → String) where
    on-apply_kind :
        (k : Kind) (ins : FlagInstruction V) (s : Applied V)
        → (apply_kind uuid k ins s).config.on ≡ or_else (toggle k) s.config.on
    unfolding apply_kind
    on-apply_kind turn_flag_on ins s = refl
    on-apply_kind turn_flag_off ins s = refl
    on-apply_kind add_a_rule ins s = when_given-leaves switch ins.clauses _ (λ clauses t. refl) s
    on-apply_kind update_a_rule ins s =
        when_given-leaves switch (given ins.rule_id) _
          (λ x. when_given-leaves switch ins.clauses _ (λ clauses t. refl)) s
    on-apply_kind remove_a_rule ins s =
        when_given-leaves switch (given ins.rule_id) _ (λ x t. refl) s
    on-apply_kind reorder_the_rules ins s =
        when_given-leaves switch ins.rule_ids _ (λ order t. refl) s
    on-apply_kind update_off_variation ins s =
        when_given-leaves switch ins.variation _ (λ v t. refl) s
    on-apply_kind update_fallthrough_variation ins s =
        when_given-leaves switch ins.variation _ (λ v t. refl) s
    on-apply_kind add_some_targets ins s =
        when_given-leaves switch ins.variation _
          (λ v. when_given-leaves switch ins.values _ (λ values t. refl)) s
    on-apply_kind remove_some_targets ins s =
        when_given-leaves switch ins.variation _
          (λ v. when_given-leaves switch ins.values _ (λ values t. refl)) s
    on-apply_kind other_kind ins s = refl

    on-apply_all :
        (instructions : List (FlagInstruction V)) (s : Applied V)
        → (apply_all uuid instructions s).config.on ≡ or_else (last_toggle instructions) s.config.on
    unfolding apply_all last_toggle
    on-apply_all [] s = refl
    on-apply_all (ins ∷ instructions) s =
        on-apply_all instructions (apply_one uuid ins s)
        ∙ ap (or_else (last_toggle instructions)) (on-apply_kind (kind_of ins.kind) ins s)
        ∙ sym (or_else-later (last_toggle instructions) (toggle (kind_of ins.kind)) s.config.on)

    -- After instructions, the switch of the flag is where the last instruction that is a toggle put
    -- it, and where it was if none is.
    pub on-apply_instructions :
        (instructions : List (FlagInstruction V)) (s : Applied V)
        → (apply_instructions uuid instructions s).config.on
          ≡ or_else (last_toggle instructions) s.config.on
    unfolding apply_instructions
    on-apply_instructions instructions s = on-apply_all instructions s
