-- ===== src/Backend/Instructions/Keep.antt =====
-- What every instruction keeps of a configuration.
use flag_it.Common.{
  ℕ, suc, ◌+◌, Bool, true, false, Option, none, some, String, List, [], ◌∷◌, ◌≡◌, refl, arith, ◌≤◌,
  ap,
}
use flag_it.Flags.{Clause, Rollout, VariationOrRollout, FlagConfig, FlagInstruction}
use flag_it.Backend.Targets.{add_targets, remove_targets}
use flag_it.Backend.Targets.Names.{IsTargetMap, add_targets-IsTargetMap, remove_targets-IsTargetMap}
use flag_it.Backend.Rules.{add_rule, update_rule, remove_rule, reorder_rules}
use flag_it.Backend.Rules.Ids.{
  IsRuleList, add_rule-IsRuleList, update_rule-IsRuleList, remove_rule-IsRuleList,
  reorder_rules-IsRuleList, IsRuleList-later,
}
use flag_it.Backend.Instructions.{
  Kind, turn_flag_on, turn_flag_off, add_a_rule, update_a_rule, remove_a_rule, reorder_the_rules,
  update_off_variation, update_fallthrough_variation, add_some_targets, remove_some_targets,
  other_kind, kind_of, given, kind_or_user, Applied, when_given, apply_kind, apply_all,
  apply_instructions, new_config,
}

when_given-keeps :
    {A S : Type 0}
    → (P : S → Type 0) (o : Option A) (f : A → S → S) → ((a : A) (s : S) → P s → P (f a s))
    → (s : S) → P s
    → P (when_given o f s)
unfolding when_given
when_given-keeps P none f kept s h = h
when_given-keeps P (some a) f kept s h = kept a s h

module _ {V : Type 0} (uuid : ℕ → String) where
  -- Each of the edits that the instructions make keeps the property.
  record IsKept (P : Applied V → Type 0) : Type 0 where
    switch : (b : Bool) (s : Applied V) → P s → P (record s { config = record s.config { on = b } })
    off :
        (v : ℕ) (s : Applied V)
        → P s
        → P (record s { config = record s.config { off_variation = v } })
    fall :
        (v : VariationOrRollout) (s : Applied V)
        → P s
        → P (record s { config = record s.config { fallthrough = v } })
    added :
        (clauses : List (Clause V)) (v : Option ℕ) (r : Option Rollout) (s : Applied V)
        → P s
        → P (record {
          config = record s.config { rules = add_rule (uuid s.issued) clauses v r s.config.rules };
          issued = suc s.issued;
        })
    updated :
        (x : String) (clauses : List (Clause V)) (v : Option ℕ) (r : Option Rollout) (s : Applied V)
        → P s
        → P (record s {
          config = record s.config { rules = update_rule x clauses v r s.config.rules };
        })
    removed :
        (x : String) (s : Applied V)
        → P s
        → P (record s { config = record s.config { rules = remove_rule x s.config.rules } })
    reordered :
        (order : List String) (s : Applied V)
        → P s
        → P (record s { config = record s.config { rules = reorder_rules order s.config.rules } })
    targets_added :
        (k : String) (v : ℕ) (values : List String) (s : Applied V)
        → P s
        → P (record s {
          config = record s.config { targets = add_targets k v values s.config.targets };
        })
    targets_removed :
        (k : String) (v : ℕ) (values : List String) (s : Applied V)
        → P s
        → P (record s {
          config = record s.config { targets = remove_targets k v values s.config.targets };
        })

  module _ (P : Applied V → Type 0) (kept : IsKept P) where
    apply_kind-keeps :
        (k : Kind) (ins : FlagInstruction V) (s : Applied V) → P s → P (apply_kind uuid k ins s)
    unfolding apply_kind
    apply_kind-keeps turn_flag_on ins s h = kept.switch true s h
    apply_kind-keeps turn_flag_off ins s h = kept.switch false s h
    apply_kind-keeps add_a_rule ins s h =
        when_given-keeps P ins.clauses _ (λ clauses. kept.added clauses ins.variation ins.rollout) s
          h
    apply_kind-keeps update_a_rule ins s h =
        when_given-keeps P (given ins.rule_id) _
          (λ x.
            when_given-keeps P ins.clauses _
              (λ clauses. kept.updated x clauses ins.variation ins.rollout))
          s h
    apply_kind-keeps remove_a_rule ins s h =
        when_given-keeps P (given ins.rule_id) _ kept.removed s h
    apply_kind-keeps reorder_the_rules ins s h =
        when_given-keeps P ins.rule_ids _ kept.reordered s h
    apply_kind-keeps update_off_variation ins s h = when_given-keeps P ins.variation _ kept.off s h
    apply_kind-keeps update_fallthrough_variation ins s h =
        when_given-keeps P ins.variation _
          (λ v. kept.fall (record { variation = some v; rollout = none })) s h
    apply_kind-keeps add_some_targets ins s h =
        when_given-keeps P ins.variation _
          (λ v.
            when_given-keeps P ins.values _ (kept.targets_added (kind_or_user ins.context_kind) v))
          s h
    apply_kind-keeps remove_some_targets ins s h =
        when_given-keeps P ins.variation _
          (λ v.
            when_given-keeps P ins.values _
              (kept.targets_removed (kind_or_user ins.context_kind) v))
          s h
    apply_kind-keeps other_kind ins s h = h

    apply_all-keeps :
        (instructions : List (FlagInstruction V)) (s : Applied V)
        → P s
        → P (apply_all uuid instructions s)
    unfolding apply_all
    apply_all-keeps [] s h = h
    apply_all-keeps (ins ∷ instructions) s h =
        apply_all-keeps instructions (apply_kind uuid (kind_of ins.kind) ins s)
          (apply_kind-keeps (kind_of ins.kind) ins s h)

  version-IsKept : (n : ℕ) → IsKept (λ s. s.config.version ≡ n)
  version-IsKept n = record {
    switch = λ b s h. h;
    off = λ v s h. h;
    fall = λ v s h. h;
    added = λ clauses v r s h. h;
    updated = λ x clauses v r s h. h;
    removed = λ x s h. h;
    reordered = λ order s h. h;
    targets_added = λ k v values s h. h;
    targets_removed = λ k v values s h. h;
  }

  issued-IsKept : (n : ℕ) → IsKept (λ s. n ≤ s.issued)
  issued-IsKept n = record {
    switch = λ b s h. h;
    off = λ v s h. h;
    fall = λ v s h. h;
    added = λ clauses v r s h. omega (arith, h);
    updated = λ x clauses v r s h. h;
    removed = λ x s h. h;
    reordered = λ order s h. h;
    targets_added = λ k v values s h. h;
    targets_removed = λ k v values s h. h;
  }

  pub issued-apply_instructions :
      (instructions : List (FlagInstruction V)) (s : Applied V)
      → s.issued ≤ (apply_instructions uuid instructions s).issued
  unfolding apply_instructions
  issued-apply_instructions instructions s =
      apply_all-keeps (λ t. s.issued ≤ t.issued) (issued-IsKept s.issued) instructions s
        (omega arith)

  -- However many instructions are applied at once, the version goes up by one.
  pub version-apply_instructions :
      (instructions : List (FlagInstruction V)) (s : Applied V)
      → (apply_instructions uuid instructions s).config.version ≡ s.config.version + 1
  unfolding apply_instructions
  version-apply_instructions instructions s =
      ap (λ n. n + 1)
        (apply_all-keeps (λ t. t.config.version ≡ s.config.version)
          (version-IsKept s.config.version) instructions s refl)

  -- The targets and the rules of a configuration are well formed.
  pub record IsConfig (s : Applied V) : Type 0 where
    pub target_map : IsTargetMap s.config.targets
    pub rule_list : IsRuleList uuid s.issued s.config.rules

  IsConfig-IsKept : ((i j : ℕ) → uuid i ≡ uuid j → i ≡ j) → IsKept IsConfig
  IsConfig-IsKept inj = record {
    switch = λ b s h. record { target_map = h.target_map; rule_list = h.rule_list };
    off = λ v s h. record { target_map = h.target_map; rule_list = h.rule_list };
    fall = λ v s h. record { target_map = h.target_map; rule_list = h.rule_list };
    added = λ clauses v r s h. record {
      target_map = h.target_map;
      rule_list = add_rule-IsRuleList uuid s.issued clauses v r s.config.rules inj h.rule_list;
    };
    updated = λ x clauses v r s h. record {
      target_map = h.target_map;
      rule_list = update_rule-IsRuleList uuid s.issued x clauses v r s.config.rules h.rule_list;
    };
    removed = λ x s h. record {
      target_map = h.target_map;
      rule_list = remove_rule-IsRuleList uuid s.issued x s.config.rules h.rule_list;
    };
    reordered = λ order s h. record {
      target_map = h.target_map;
      rule_list = reorder_rules-IsRuleList uuid s.issued order s.config.rules h.rule_list;
    };
    targets_added = λ k v values s h. record {
      target_map = add_targets-IsTargetMap k v values s.config.targets h.target_map;
      rule_list = h.rule_list;
    };
    targets_removed = λ k v values s h. record {
      target_map = remove_targets-IsTargetMap k v values s.config.targets h.target_map;
      rule_list = h.rule_list;
    };
  }

  -- If no id is handed out twice, applying instructions keeps the configuration well formed: no two
  -- targets of one variation and one context kind, no key twice in a target, and no two rules of
  -- one id.
  pub apply_instructions-IsConfig :
      (instructions : List (FlagInstruction V)) (s : Applied V)
      → ((i j : ℕ) → uuid i ≡ uuid j → i ≡ j)
      → IsConfig s
      → IsConfig (apply_instructions uuid instructions s)
  unfolding apply_instructions
  apply_instructions-IsConfig instructions s inj h =
      let t = apply_all-keeps IsConfig (IsConfig-IsKept inj) instructions s h in
      record { target_map = t.target_map; rule_list = t.rule_list }

  pub IsConfig-later :
      (c : FlagConfig V) (n m : ℕ)
      → n ≤ m
      → IsConfig (record { config = c; issued = n })
      → IsConfig (record { config = c; issued = m })
  IsConfig-later c n m le h = record {
    target_map = h.target_map;
    rule_list = IsRuleList-later uuid n m c.rules le h.rule_list;
  }

  pub new_config-IsConfig : (n : ℕ) → IsConfig (record { config = new_config; issued = n })
  new_config-IsConfig n = record {
    target_map = record { names = tt; sets = tt };
    rule_list = record { issued = tt; distinct = tt };
  }
