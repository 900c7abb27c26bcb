-- ===== src/Backend/Rules/Order.antt =====
-- The sort of `reorderRules` by the ranks of the rules.
use flag_it.Common.{
  ℕ, zero, suc, ◌+◌, ◌≤◌, ◌<◌, Bool, String, List, [], ◌∷◌, ◌++◌, ◌==◌, ◌≡◌, refl, arith, filterb,
  filterb-keep, filterb-drop, Bool-cases, inl, inr, length, ◌∙◌, sym, ==_iff, All, All-append,
  leb_of, leb_not,
}
use flag_it.Flags.{FlagRule}
use flag_it.Backend.Rules.{rank, insert_rule, reorder_rules}

pub rank-bound : (order : List String) (x : _) → rank order x ≤ length order
unfolding rank
rank-bound [] x = omega arith
rank-bound (y ∷ order) x = ground (arith, rank-bound order x)

module _ {V : Type 0} where
  abbrev pub ranked : List String → ℕ → FlagRule V → Bool
  ranked order k r = rank order r.id == k

  -- The rules of rank `k`, in their order, then those of the next rank, and so on for `n` ranks.
  unfoldable pub groups : List String → ℕ → ℕ → List (FlagRule V) → List (FlagRule V)
  groups order k zero rules = []
  groups order k (suc n) rules = filterb (ranked order k) rules ++ groups order (suc k) n rules

  filterb-at_least :
      (order : List String) (low k : ℕ) (rules : List (FlagRule V))
      → low ≤ k
      → All (λ r. low ≤ rank order r.id) (filterb (ranked order k) rules)
  filterb-at_least order low k [] h = tt
  filterb-at_least order low k (r ∷ rules) h = elim (Bool-cases (ranked order k r)) [
    | inl same ↦ rw (filterb-keep (ranked order k) r rules same) (
      (omega (arith, h, (==_iff (rank order r.id) k).0 same)),
      filterb-at_least order low k rules h,
    )
    | inr other ↦
        rw (filterb-drop (ranked order k) r rules other) (filterb-at_least order low k rules h)
  ]

  groups-at_least :
      (order : List String) (low k n : ℕ) (rules : List (FlagRule V))
      → low ≤ k
      → All (λ r. low ≤ rank order r.id) (groups order k n rules)
  unfolding groups
  groups-at_least order low k zero rules h = tt
  groups-at_least order low k (suc n) rules h =
      All-append (λ r. low ≤ rank order r.id) (filterb (ranked order k) rules)
        (groups order (suc k) n rules) (filterb-at_least order low k rules h)
        (groups-at_least order low (suc k) n rules (omega (arith, h)))

  -- A rule goes before those of its own rank.
  pub insert-front :
      (order : List String) (r : FlagRule V) (rules : List (FlagRule V))
      → All (λ s. rank order r.id ≤ rank order s.id) rules
      → insert_rule order r rules ≡ r ∷ rules
  unfolding insert_rule
  insert-front order r [] h = refl
  insert-front order r (s ∷ rules) h = rw (leb_of (rank order r.id) (rank order s.id) h.0) refl

  -- A rule goes behind those of a lower rank.
  insert-behind :
      (order : List String) (k : ℕ) (r : FlagRule V) (rules rest : List (FlagRule V))
      → k < rank order r.id
      → insert_rule order r (filterb (ranked order k) rules ++ rest)
        ≡ filterb (ranked order k) rules ++ insert_rule order r rest
  unfolding insert_rule
  insert-behind order k r [] rest h = refl
  insert-behind order k r (s ∷ rules) rest h = elim (Bool-cases (ranked order k s)) [
    | inl same ↦
        rw
          (
            filterb-keep (ranked order k) s rules same,
            leb_not (rank order r.id) (rank order s.id)
                (omega (arith, h, (==_iff (rank order s.id) k).0 same)),
            insert-behind order k r rules rest h,
          )
          refl
    | inr other ↦
        rw (filterb-drop (ranked order k) s rules other, insert-behind order k r rules rest h) refl
  ]

  -- A rule of a lower rank is in none of the groups.
  groups-skip :
      (order : List String) (k n : ℕ) (r : FlagRule V) (rules : List (FlagRule V))
      → rank order r.id < k
      → groups order k n (r ∷ rules) ≡ groups order k n rules
  unfolding groups
  groups-skip order k zero r rules h = refl
  groups-skip order k (suc n) r rules h =
      rw
        (
          filterb-drop (ranked order k) r rules (ground (arith, h)),
          groups-skip order (suc k) n r rules (omega (arith, h)),
        )
        refl

  groups-insert :
      (order : List String) (k n : ℕ) (r : FlagRule V) (rules : List (FlagRule V))
      → k ≤ rank order r.id
      → rank order r.id < k + n
      → insert_rule order r (groups order k n rules) ≡ groups order k n (r ∷ rules)
  unfolding groups
  groups-insert order k zero r rules low high = ground (arith, low, high)
  groups-insert order k (suc n) r rules low high = elim (Bool-cases (ranked order k r)) [
    | inl same ↦
        insert-front order r (groups order k (suc n) rules) (
          groups-at_least order (rank order r.id) k (suc n) rules
            (omega (arith, (==_iff (rank order r.id) k).0 same)))
        ∙ rw
            (
              filterb-keep (ranked order k) r rules same,
              groups-skip order (suc k) n r rules
                  (omega (arith, (==_iff (rank order r.id) k).0 same)),
            )
            refl
    | inr other ↦
        rw
          (
            insert-behind order k r rules (groups order (suc k) n rules)
                (ground (arith, low, other)),
            filterb-drop (ranked order k) r rules other,
            groups-insert order (suc k) n r rules (ground (arith, low, other))
                (omega (arith, high)),
          )
          refl
  ]

  groups-nil : (order : List String) (k n : ℕ) → groups order k n [] ≡ []
  unfolding groups
  groups-nil order k zero = refl
  groups-nil order k (suc n) = groups-nil order (suc k) n

  -- Reordering puts the groups of the ranks one after another.
  pub reorder_rules-by_rank :
      (order : List String) (rules : List (FlagRule V))
      → reorder_rules order rules ≡ groups order 0 (suc (length order)) rules
  unfolding reorder_rules
  reorder_rules-by_rank order [] = sym (groups-nil order 0 (suc (length order)))
  reorder_rules-by_rank order (r ∷ rules) = rw (reorder_rules-by_rank order rules) (
      groups-insert order 0 (suc (length order)) r rules (omega arith)
        (omega (arith, rank-bound order r.id)))
