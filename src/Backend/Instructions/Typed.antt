-- ===== src/Backend/Instructions/Typed.antt =====
-- What a rule or a default serves: a variation or a rollout, which web/src/types/flag.ts leaves to two
-- fields that may both be missing.
use flag_it.Common.{
  ℕ, Option, none, some, String, List, [], ◌∷◌, not, All, All-append, All-filterb, leb, Bool-cases,
  inl, inr,
}
use flag_it.Flags.{Clause, Rollout, FlagRule, FlagConfig, FlagInstruction}
use flag_it.Backend.Rules.{has_id, add_rule, update_rule, rank, insert_rule, reorder_rules}
use flag_it.Backend.Instructions.{
  Kind, turn_flag_on, turn_flag_off, add_a_rule, update_a_rule, remove_a_rule, reorder_the_rules,
  update_off_variation, update_fallthrough_variation, add_some_targets, remove_some_targets,
  other_kind, kind_of, given, when_given, Applied, apply_kind, apply_one, apply_all,
  apply_instructions,
}

-- Exactly one of the two is there.
abbrev pub IsOneOf : Option ℕ → Option Rollout → Type 0
IsOneOf none none = ⊥
IsOneOf (some v) none = Unit
IsOneOf none (some r) = Unit
IsOneOf (some v) (some r) = ⊥

module _ {V : Type 0} where
  abbrev pub IsServing : FlagRule V → Type 0
  IsServing r = IsOneOf r.variation r.rollout

  pub record IsTyped (c : FlagConfig V) : Type 0 where
    pub fallthrough : IsOneOf c.fallthrough.variation c.fallthrough.rollout
    pub rules : All IsServing c.rules

  -- An instruction that makes a rule serve something.
  abbrev pub Serves : Kind → FlagInstruction V → Type 0
  Serves add_a_rule ins = IsOneOf ins.variation ins.rollout
  Serves update_a_rule ins = IsOneOf ins.variation ins.rollout
  Serves k ins = Unit

  update_rule-IsServing :
      (x : String) (clauses : List (Clause V)) (v : Option ℕ) (r : Option Rollout)
      (rules : List (FlagRule V))
      → IsOneOf v r
      → All IsServing rules
      → All IsServing (update_rule x clauses v r rules)
  unfolding update_rule
  update_rule-IsServing x clauses v r [] one h = tt
  update_rule-IsServing x clauses v r (rule ∷ rules) one h = (
    elim (Bool-cases (has_id x rule)) [ inl named ↦ rw named one | inr other ↦ rw other h.0 ],
    update_rule-IsServing x clauses v r rules one h.1,
  )

  insert_rule-IsServing :
      (order : List String) (r : FlagRule V) (rules : List (FlagRule V))
      → IsServing r
      → All IsServing rules
      → All IsServing (insert_rule order r rules)
  unfolding insert_rule
  insert_rule-IsServing order r [] one h = (one, tt)
  insert_rule-IsServing order r (s ∷ rules) one h =
      elim (Bool-cases (leb (rank order r.id) (rank order s.id))) [
        | inl first ↦ rw first (one, h)
        | inr after ↦ rw after (h.0, insert_rule-IsServing order r rules one h.1)
      ]

  reorder_rules-IsServing :
      (order : List String) (rules : List (FlagRule V))
      → All IsServing rules
      → All IsServing (reorder_rules order rules)
  unfolding reorder_rules
  reorder_rules-IsServing order [] h = tt
  reorder_rules-IsServing order (r ∷ rules) h =
      insert_rule-IsServing order r (reorder_rules order rules) h.0
        (reorder_rules-IsServing order rules h.1)

  -- An edit that keeps a property keeps it when its operand may be missing.
  when_given-keeps :
      {A : Type 0} (o : Option A) (f : A → Applied V → Applied V) (s : Applied V)
      → IsTyped s.config
      → ((a : A) → IsTyped (f a s).config)
      → IsTyped (when_given o f s).config
  unfolding when_given
  when_given-keeps none f s h k = h
  when_given-keeps (some a) f s h k = k a

  module _ (uuid : ℕ → String) where
    apply_kind-IsTyped :
        (k : Kind) (ins : FlagInstruction V) (s : Applied V)
        → Serves k ins
        → IsTyped s.config
        → IsTyped (apply_kind uuid k ins s).config
    unfolding apply_kind add_rule
    apply_kind-IsTyped turn_flag_on ins s one h = record {
      fallthrough = h.fallthrough;
      rules = h.rules;
    }
    apply_kind-IsTyped turn_flag_off ins s one h = record {
      fallthrough = h.fallthrough;
      rules = h.rules;
    }
    apply_kind-IsTyped add_a_rule ins s one h = when_given-keeps ins.clauses _ s h (λ clauses.
        record {
          fallthrough = h.fallthrough;
          rules = All-append IsServing s.config.rules (_ ∷ []) h.rules (one, tt);
        })
    apply_kind-IsTyped update_a_rule ins s one h = when_given-keeps (given ins.rule_id) _ s h (λ x.
        when_given-keeps ins.clauses _ s h (λ clauses. record {
          fallthrough = h.fallthrough;
          rules =
              update_rule-IsServing x clauses ins.variation ins.rollout s.config.rules one h.rules;
        }))
    apply_kind-IsTyped remove_a_rule ins s one h = when_given-keeps (given ins.rule_id) _ s h (λ x.
        record {
          fallthrough = h.fallthrough;
          rules = All-filterb IsServing (λ r. not (has_id x r)) s.config.rules h.rules;
        })
    apply_kind-IsTyped reorder_the_rules ins s one h = when_given-keeps ins.rule_ids _ s h (λ order.
        record {
          fallthrough = h.fallthrough;
          rules = reorder_rules-IsServing order s.config.rules h.rules;
        })
    apply_kind-IsTyped update_off_variation ins s one h =
        when_given-keeps ins.variation _ s h
          (λ v. record { fallthrough = h.fallthrough; rules = h.rules })
    apply_kind-IsTyped update_fallthrough_variation ins s one h =
        when_given-keeps ins.variation _ s h (λ v. record { fallthrough = tt; rules = h.rules })
    apply_kind-IsTyped add_some_targets ins s one h = when_given-keeps ins.variation _ s h (λ v.
        when_given-keeps ins.values _ s h
          (λ values. record { fallthrough = h.fallthrough; rules = h.rules }))
    apply_kind-IsTyped remove_some_targets ins s one h = when_given-keeps ins.variation _ s h (λ v.
        when_given-keeps ins.values _ s h
          (λ values. record { fallthrough = h.fallthrough; rules = h.rules }))
    apply_kind-IsTyped other_kind ins s one h = h

    apply_all-IsTyped :
        (instructions : List (FlagInstruction V)) (s : Applied V)
        → All (λ ins. Serves (kind_of ins.kind) ins) instructions
        → IsTyped s.config
        → IsTyped (apply_all uuid instructions s).config
    unfolding apply_all
    apply_all-IsTyped [] s one h = h
    apply_all-IsTyped (ins ∷ instructions) s one h =
        apply_all-IsTyped instructions (apply_one uuid ins s) one.1
          (apply_kind-IsTyped (kind_of ins.kind) ins s one.0 h)

    -- A batch of instructions whose rules serve a variation or a rollout keeps it that every rule of the
    -- configuration, and its default, serves exactly one of the two.
    pub apply_instructions-IsTyped :
        (instructions : List (FlagInstruction V)) (s : Applied V)
        → All (λ ins. Serves (kind_of ins.kind) ins) instructions
        → IsTyped s.config
        → IsTyped (apply_instructions uuid instructions s).config
    unfolding apply_instructions
    apply_instructions-IsTyped instructions s one h =
        let after = apply_all-IsTyped instructions s one h in
        record { fallthrough = after.fallthrough; rules = after.rules }
