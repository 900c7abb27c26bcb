-- ===== src/Backend/Rules/Ids.antt =====
-- The ids that the edits of the rules of a flag leave them.
use flag_it.Common.{
  ℕ, suc, ◌≤◌, ◌<◌, Bool, Option, some, String, List, [], ◌∷◌, ◌++◌, not, ◌≡◌, ◌≢◌, refl, sym, ◌∙◌,
  arith, filterb, filterb-keep, filterb-drop, Bool-cases, inl, inr, All, All-append, All-filterb,
  leb,
}
use mathlib.Core.Option.{some-injective}
use flag_it.Flags.{Clause, Rollout, FlagRule}
use flag_it.Backend.Rules.{
  rank, has_id, add_rule, update_one, update_rule, remove_rule, insert_rule, reorder_rules,
}

module _ {V : Type 0} where
  abbrev pub HasDistinctIds : List (FlagRule V) → Type 0
  HasDistinctIds [] = Unit
  HasDistinctIds (r ∷ rules) = All (λ s. r.id ≢ s.id) rules × HasDistinctIds rules

  -- Every id is one of the first `n` that were handed out.
  abbrev pub Issued : (ℕ → String) → ℕ → FlagRule V → Type 0
  Issued uuid n r = (i : ℕ) × (i < n) × (r.id ≡ some (uuid i))

  -- The rules have ids that were handed out, and no two have the same.
  pub record IsRuleList (uuid : ℕ → String) (n : ℕ) (rules : List (FlagRule V)) : Type 0 where
    pub issued : All (Issued uuid n) rules
    pub distinct : HasDistinctIds rules

  id-update_one :
      (x : String) (clauses : List (Clause V)) (variation : Option ℕ) (rollout : Option Rollout)
      (r : FlagRule V)
      → (update_one x clauses variation rollout r).id ≡ r.id
  id-update_one x clauses variation rollout r = elim (Bool-cases (has_id x r)) [
    | inl same ↦ rw same refl
    | inr other ↦ rw other refl
  ]

  module _ (x : String) (clauses : List (Clause V)) (variation : Option ℕ)
      (rollout : Option Rollout) where
    All-update_rule :
        (P : Option String → Type 0) (rules : List (FlagRule V))
        → All (λ r. P r.id) rules
        → All (λ r. P r.id) (update_rule x clauses variation rollout rules)
    unfolding update_rule
    All-update_rule P [] h = h
    All-update_rule P (r ∷ rules) h =
        (rw (id-update_one x clauses variation rollout r) h.0, All-update_rule P rules h.1)

    update_rule-HasDistinctIds :
        (rules : List (FlagRule V))
        → HasDistinctIds rules
        → HasDistinctIds (update_rule x clauses variation rollout rules)
    unfolding update_rule
    update_rule-HasDistinctIds [] h = h
    update_rule-HasDistinctIds (r ∷ rules) h = (
      rw (id-update_one x clauses variation rollout r) (All-update_rule (λ y. r.id ≢ y) rules h.0),
      update_rule-HasDistinctIds rules h.1,
    )

  filterb-HasDistinctIds :
      (p : FlagRule V → Bool) (rules : List (FlagRule V))
      → HasDistinctIds rules
      → HasDistinctIds (filterb p rules)
  filterb-HasDistinctIds p [] h = h
  filterb-HasDistinctIds p (r ∷ rules) h = elim (Bool-cases (p r)) [
    | inl kept ↦
        rw (filterb-keep p r rules kept)
          (All-filterb (λ s. r.id ≢ s.id) p rules h.0, filterb-HasDistinctIds p rules h.1)
    | inr dropped ↦ rw (filterb-drop p r rules dropped) (filterb-HasDistinctIds p rules h.1)
  ]

  append-HasDistinctIds :
      (rules : List (FlagRule V)) (s : FlagRule V)
      → All (λ r. r.id ≢ s.id) rules
      → HasDistinctIds rules
      → HasDistinctIds (rules ++ s ∷ [])
  append-HasDistinctIds [] s h d = (tt, tt)
  append-HasDistinctIds (r ∷ rules) s h d = (
    All-append (λ t. r.id ≢ t.id) rules (s ∷ []) d.0 (h.0, tt),
    append-HasDistinctIds rules s h.1 d.1,
  )

  All-insert_rule :
      (P : FlagRule V → Type 0) (order : List String) (r : FlagRule V) (rules : List (FlagRule V))
      → P r
      → All P rules
      → All P (insert_rule order r rules)
  unfolding insert_rule
  All-insert_rule P order r [] p h = (p, tt)
  All-insert_rule P order r (s ∷ rules) p h =
      elim (Bool-cases (leb (rank order r.id) (rank order s.id))) [
        | inl before ↦ rw before (p, h)
        | inr behind ↦ rw behind (h.0, All-insert_rule P order r rules p h.1)
      ]

  insert_rule-HasDistinctIds :
      (order : List String) (r : FlagRule V) (rules : List (FlagRule V))
      → All (λ s. r.id ≢ s.id) rules
      → HasDistinctIds rules
      → HasDistinctIds (insert_rule order r rules)
  unfolding insert_rule
  insert_rule-HasDistinctIds order r [] h d = (h, d)
  insert_rule-HasDistinctIds order r (s ∷ rules) h d =
      elim (Bool-cases (leb (rank order r.id) (rank order s.id))) [
        | inl before ↦ rw before (h, d)
        | inr behind ↦ rw behind (
          All-insert_rule (λ t. s.id ≢ t.id) order r rules (λ e. h.0 (sym e)) d.0,
          insert_rule-HasDistinctIds order r rules h.1 d.1,
        )
      ]

  All-reorder_rules :
      (P : FlagRule V → Type 0) (order : List String) (rules : List (FlagRule V))
      → All P rules
      → All P (reorder_rules order rules)
  unfolding reorder_rules
  All-reorder_rules P order [] h = h
  All-reorder_rules P order (r ∷ rules) h =
      All-insert_rule P order r (reorder_rules order rules) h.0
        (All-reorder_rules P order rules h.1)

  reorder_rules-HasDistinctIds :
      (order : List String) (rules : List (FlagRule V))
      → HasDistinctIds rules
      → HasDistinctIds (reorder_rules order rules)
  unfolding reorder_rules
  reorder_rules-HasDistinctIds order [] h = h
  reorder_rules-HasDistinctIds order (r ∷ rules) h =
      insert_rule-HasDistinctIds order r (reorder_rules order rules)
        (All-reorder_rules (λ s. r.id ≢ s.id) order rules h.0)
        (reorder_rules-HasDistinctIds order rules h.1)

  module _ (uuid : ℕ → String) (n : ℕ) where
    weaken :
        (m : ℕ) (rules : List (FlagRule V))
        → n ≤ m
        → All (Issued uuid n) rules
        → All (Issued uuid m) rules
    weaken m [] le h = h
    weaken m (r ∷ rules) le h = ((h.0.0, omega (arith, le, h.0.1), h.0.2), weaken m rules le h.1)

    pub IsRuleList-later :
        (m : ℕ) (rules : List (FlagRule V))
        → n ≤ m
        → IsRuleList uuid n rules
        → IsRuleList uuid m rules
    IsRuleList-later m rules le h = record {
      issued = weaken m rules le h.issued;
      distinct = h.distinct;
    }

    new_id_unused :
        (inj : (i j : ℕ) → uuid i ≡ uuid j → i ≡ j) (rules : List (FlagRule V))
        → All (Issued uuid n) rules
        → All (λ r. r.id ≢ some (uuid n)) rules
    new_id_unused inj [] h = h
    new_id_unused inj (r ∷ rules) h = (
      (λ e.
          (omega
            (arith, h.0.1, inj h.0.0 n (some-injective (uuid h.0.0) (uuid n) (sym h.0.2 ∙ e))))),
      new_id_unused inj rules h.1,
    )

    pub add_rule-IsRuleList :
        (clauses : List (Clause V)) (variation : Option ℕ) (rollout : Option Rollout)
        (rules : List (FlagRule V))
        → ((i j : ℕ) → uuid i ≡ uuid j → i ≡ j)
        → IsRuleList uuid n rules
        → IsRuleList uuid (suc n) (add_rule (uuid n) clauses variation rollout rules)
    unfolding add_rule
    add_rule-IsRuleList clauses variation rollout rules inj h = record {
      issued =
          All-append (Issued uuid (suc n)) rules _ (weaken (suc n) rules (omega arith) h.issued)
            ((n, omega arith, refl), tt);
      distinct = append-HasDistinctIds rules _ (new_id_unused inj rules h.issued) h.distinct;
    }

    pub update_rule-IsRuleList :
        (x : String) (clauses : List (Clause V)) (variation : Option ℕ) (rollout : Option Rollout)
        (rules : List (FlagRule V))
        → IsRuleList uuid n rules
        → IsRuleList uuid n (update_rule x clauses variation rollout rules)
    update_rule-IsRuleList x clauses variation rollout rules h = record {
      issued =
          All-update_rule x clauses variation rollout (λ y. (i : ℕ) × (i < n) × (y ≡ some (uuid i)))
            rules h.issued;
      distinct = update_rule-HasDistinctIds x clauses variation rollout rules h.distinct;
    }

    pub remove_rule-IsRuleList :
        (x : String) (rules : List (FlagRule V))
        → IsRuleList uuid n rules
        → IsRuleList uuid n (remove_rule x rules)
    unfolding remove_rule
    remove_rule-IsRuleList x rules h = record {
      issued = All-filterb (Issued uuid n) (λ r. not (has_id x r)) rules h.issued;
      distinct = filterb-HasDistinctIds (λ r. not (has_id x r)) rules h.distinct;
    }

    pub reorder_rules-IsRuleList :
        (order : List String) (rules : List (FlagRule V))
        → IsRuleList uuid n rules
        → IsRuleList uuid n (reorder_rules order rules)
    reorder_rules-IsRuleList order rules h = record {
      issued = All-reorder_rules (Issued uuid n) order rules h.issued;
      distinct = reorder_rules-HasDistinctIds order rules h.distinct;
    }
