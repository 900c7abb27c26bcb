-- ===== src/Backend/Rules/Named.antt =====
-- The order that `reorderRules` leaves the rules in, by the ids alone.
use flag_it.Common.{
  ℕ, zero, suc, Bool, Option, String, List, [], ◌∷◌, ◌++◌, not, ◌&&◌, ◌==◌, ◌≡◌, refl, ◌∙◌, arith,
  any, filterb, filterb-keep, filterb-drop, Bool-cases, inl, inr, length,
}
use flag_it.Flags.{FlagRule}
use flag_it.Backend.Rules.{is_id, has_id, rank, reorder_rules}
use flag_it.Backend.Rules.Order.{ranked, groups, reorder_rules-by_rank}

-- Two tests that agree keep the same elements.
filterb-same :
    {A : Type 0} (p q : A → Bool) (xs : List A)
    → ((x : A) → p x ≡ q x)
    → filterb p xs ≡ filterb q xs
filterb-same p q [] h = refl
filterb-same p q (x ∷ xs) h = elim (Bool-cases (q x)) [
  | inl kept ↦
      rw (filterb-keep p x xs (h x ∙ kept), filterb-keep q x xs kept, filterb-same p q xs h) refl
  | inr dropped ↦
      rw (filterb-drop p x xs (h x ∙ dropped), filterb-drop q x xs dropped, filterb-same p q xs h)
        refl
]

-- A test among the elements that passed another one.
filterb-both :
    {A : Type 0} (p q r : A → Bool) (xs : List A)
    → ((x : A) → p x ≡ (q x && r x))
    → filterb p xs ≡ filterb r (filterb q xs)
filterb-both p q r [] h = refl
filterb-both p q r (x ∷ xs) h = elim (Bool-cases (q x)) [
  | inl first ↦ elim (Bool-cases (r x)) [
    | inl second ↦
        rw
          (
            filterb-keep p x xs (ground (arith, h x, first, second)),
            filterb-keep q x xs first,
            filterb-keep r x (filterb q xs) second,
            filterb-both p q r xs h,
          )
          refl
    | inr fails ↦
        rw
          (
            filterb-drop p x xs (ground (arith, h x, first, fails)),
            filterb-keep q x xs first,
            filterb-drop r x (filterb q xs) fails,
            filterb-both p q r xs h,
          )
          refl
  ]
  | inr fails ↦
      rw
        (
          filterb-drop p x xs (ground (arith, h x, fails)),
          filterb-drop q x xs fails,
          filterb-both p q r xs h,
        )
        refl
]

rank-unnamed :
    (order : List String) (x : Option String)
    → (rank order x == 0) ≡ not (any (λ y. is_id y x) order)
unfolding rank
rank-unnamed [] x = refl
rank-unnamed (y ∷ order) x = ground (arith, rank-unnamed order x)

rank-first :
    (y : String) (order : List String) (x : Option String) → (rank (y ∷ order) x == 1) ≡ is_id y x
unfolding rank
rank-first y order x = ground arith

rank-later :
    (y : String) (order : List String) (x : Option String) (k : ℕ)
    → (rank (y ∷ order) x == suc (suc k)) ≡ (not (is_id y x) && (rank order x == suc k))
unfolding rank
rank-later y order x k = ground arith

module _ {V : Type 0} where
  -- The list of ids names the rule.
  abbrev pub is_named : List String → FlagRule V → Bool
  is_named order r = any (λ y. has_id y r) order

  -- The rules of the first id, in the order they have, then those of the second, and so on.
  unfoldable pub picked : List String → List (FlagRule V) → List (FlagRule V)
  picked [] rules = []
  picked (y ∷ order) rules =
      filterb (has_id y) rules ++ picked order (filterb (λ r. not (has_id y r)) rules)

  groups-later :
      (y : String) (order : List String) (k n : ℕ) (rules : List (FlagRule V))
      → groups (y ∷ order) (suc (suc k)) n rules
        ≡ groups order (suc k) n (filterb (λ r. not (has_id y r)) rules)
  unfolding groups
  groups-later y order k zero rules = refl
  groups-later y order k (suc n) rules =
      rw
        (
          filterb-both (ranked (y ∷ order) (suc (suc k))) (λ r. not (has_id y r))
              (ranked order (suc k)) rules (λ r. rank-later y order r.id k),
          groups-later y order (suc k) n rules,
        )
        refl

  groups-picked :
      (order : List String) (rules : List (FlagRule V))
      → groups order 1 (length order) rules ≡ picked order rules
  unfolding groups picked
  groups-picked [] rules = refl
  groups-picked (y ∷ order) rules =
      rw
        (
          filterb-same (ranked (y ∷ order) 1) (has_id y) rules (λ r. rank-first y order r.id),
          groups-later y order 0 (length order) rules,
          groups-picked order (filterb (λ r. not (has_id y r)) rules),
        )
        refl

  -- Reordering puts the rules that the list of ids does not name first, in the order they had, then
  -- those of the first id, those of the second, and so on; an id that the list repeats counts where
  -- it stands first.
  pub reorder_rules-picked :
      (order : List String) (rules : List (FlagRule V))
      → reorder_rules order rules
        ≡ filterb (λ r. not (is_named order r)) rules ++ picked order rules
  unfolding groups
  reorder_rules-picked order rules =
      reorder_rules-by_rank order rules
      ∙ rw
          (
            filterb-same (ranked order 0) (λ r. not (is_named order r)) rules
                (λ r. rank-unnamed order r.id),
            groups-picked order rules,
          )
          refl
