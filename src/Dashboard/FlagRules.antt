-- ===== src/Dashboard/FlagRules.antt =====
-- The list of targeting rules, web/src/features/flags/components/FlagRules.tsx.
pub mod Ranks
pub mod Moves
use flag_it.Common.{
  ℕ, zero, suc, Bool, true, false, Option, none, some, String, List, [], ◌∷◌, str_eq, if◌then◌else◌,
  get_elem?, set,
}
use flag_it.Flags.{FlagRule}

-- `delta`, -1 or 1.
pub data Direction : Type 0 where
  up : Direction
  down : Direction

-- The index of the neighbour, if it is no negative number.
abbrev pub target_of : ℕ → Direction → Option ℕ
target_of zero up = none
target_of (suc i) up = some i
target_of i down = some (suc i)

abbrev pub add_given : Option String → List String → List String
add_given none ids = ids
add_given (some x) ids = if str_eq x "" then ids else x ∷ ids

abbrev pub swap_found : Option String → Option String → ℕ → ℕ → List String → Option (List String)
swap_found (some a) (some b) i j ids = some (set (set ids i b) j a)
swap_found _ _ i j ids = none

abbrev pub swap_at : ℕ → Option ℕ → List String → Option (List String)
swap_at i none ids = none
swap_at i (some j) ids = swap_found (get_elem? ids i) (get_elem? ids j) i j ids

module _ {V : Type 0} where
  -- The ids of the rules that have one.
  unfoldable pub given_ids : List (FlagRule V) → List String
  given_ids [] = []
  given_ids (r ∷ rules) = add_given r.id (given_ids rules)

  -- `move`: what `onReorderRules` is called with, if anything.
  unfoldable pub move : ℕ → Direction → List (FlagRule V) → Option (List String)
  unfolding given_ids
  move index direction rules = swap_at index (target_of index direction) (given_ids rules)
