-- ===== src/Backend/Rules.antt =====
-- The rules of a flag, as `applyInstructions` of web/src/mocks/handlers.ts edits them. `uuid` is
-- `crypto.randomUUID`: the text of its n-th call.
pub mod Order
pub mod Named
pub mod Ids
use flag_it.Common.{
  ℕ, zero, suc, ◌+◌, Bool, true, false, Option, none, some, String, List, [], ◌∷◌, ◌++◌, not, ◌==◌,
  leb, str_eq, if◌then◌else◌, filterb, map,
}
use flag_it.Flags.{Clause, Rollout, FlagRule}

-- `r.id === ruleId`
abbrev pub is_id : String → Option String → Bool
is_id x none = false
is_id x (some y) = str_eq y x

module _ {V : Type 0} where
  abbrev pub has_id : String → FlagRule V → Bool
  has_id x r = is_id x r.id

  -- The instruction `addRule`: the n-th fresh id, at the end.
  unfoldable pub add_rule :
      String → List (Clause V) → Option ℕ → Option Rollout → List (FlagRule V) → List (FlagRule V)
  add_rule fresh clauses variation rollout rules =
      rules
      ++ record { id = some fresh; clauses = clauses; variation = variation; rollout = rollout }
        ∷ []

  -- The instruction `updateRule`, on one rule.
  abbrev pub update_one :
      String → List (Clause V) → Option ℕ → Option Rollout → FlagRule V → FlagRule V
  update_one x clauses variation rollout r =
      if has_id x r
      then record r { clauses = clauses; variation = variation; rollout = rollout }
      else r

  unfoldable pub update_rule :
      String → List (Clause V) → Option ℕ → Option Rollout → List (FlagRule V) → List (FlagRule V)
  update_rule x clauses variation rollout rules = map (update_one x clauses variation rollout) rules

  -- The instruction `removeRule`.
  unfoldable pub remove_rule : String → List (FlagRule V) → List (FlagRule V)
  remove_rule x rules = filterb (λ r. not (has_id x r)) rules

-- `order.indexOf(id) + 1`: 0 for an id that the order does not name.
unfoldable pub rank : List String → Option String → ℕ
rank [] x = 0
rank (y ∷ ys) x = let r = rank ys x in if is_id y x then 1 else if r == 0 then 0 else suc r

module _ {V : Type 0} where
  -- A stable sort by the ranks, as `sort` of JavaScript is.
  unfoldable pub insert_rule : List String → FlagRule V → List (FlagRule V) → List (FlagRule V)
  unfolding rank
  insert_rule order r [] = r ∷ []
  insert_rule order r (s ∷ rules) =
      let rest = insert_rule order r rules in
      if leb (rank order r.id) (rank order s.id) then r ∷ s ∷ rules else s ∷ rest

  -- The instruction `reorderRules`.
  unfoldable pub reorder_rules : List String → List (FlagRule V) → List (FlagRule V)
  unfolding insert_rule
  reorder_rules order [] = []
  reorder_rules order (r ∷ rules) = insert_rule order r (reorder_rules order rules)
