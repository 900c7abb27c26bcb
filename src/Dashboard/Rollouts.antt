-- ===== src/Dashboard/Rollouts.antt =====
-- Percentages and rollouts, web/src/lib/variations.ts. Percentages are whole numbers, as the editor
-- makes them.
pub mod Laws
use flag_it.Common.{
  ℕ, zero, suc, ◌+◌, ◌-◌, ◌*◌, ◌/◌, Bool, true, false, Option, none, some, String, List, [], ◌∷◌,
  ltb, str_eq, if◌then◌else◌, length, replicate, set,
}
use flag_it.Flags.{Weighted, Rollout}

-- `percents.reduce((a, b) => a + b, 0)`
unfoldable pub sum : List ℕ → ℕ
sum [] = 0
sum (x ∷ xs) = x + sum xs

abbrev pub add_to_first : ℕ → List ℕ → List ℕ
add_to_first n [] = []
add_to_first n (x ∷ xs) = (x + n) ∷ xs

unfoldable pub even_percents : ℕ → List ℕ
even_percents zero = []
even_percents (suc n) =
    let base = 100 / suc n in add_to_first (100 - base * suc n) (replicate (suc n) base)

-- `percents.map((p, i) => ({ variation: i, weight: Math.round(p * 1000) }))`, from the index `i`.
unfoldable pub weights_from : ℕ → List ℕ → List Weighted
weights_from i [] = []
weights_from i (p ∷ percents) =
    record { variation = i; weight = p * 1000 } ∷ weights_from (suc i) percents

-- A text that is empty is left out.
abbrev pub if_filled : String → Option String
if_filled s = if str_eq s "" then none else some s

abbrev pub then_filled : Option String → Option String
then_filled none = none
then_filled (some s) = if_filled s

unfoldable pub rollout_from_percents : List ℕ → Option String → Option String → Option ℕ → Rollout
unfolding weights_from
rollout_from_percents percents bucket_by context_kind seed = record {
  variations = weights_from 0 percents;
  bucket_by = then_filled bucket_by;
  context_kind = then_filled context_kind;
  seed = seed;
}

-- `Math.round(weight / 1000)`
abbrev pub round_percent : ℕ → ℕ
round_percent weight = (weight + 500) / 1000

unfoldable pub fill_percents : ℕ → List Weighted → List ℕ → List ℕ
fill_percents count [] out = out
fill_percents count (w ∷ ws) out =
    fill_percents count ws
      (if ltb w.variation count then set out w.variation (round_percent w.weight) else out)

abbrev pub weights_of : Option Rollout → List Weighted
weights_of none = []
weights_of (some r) = r.variations

unfoldable pub percents_from_rollout : Option Rollout → ℕ → List ℕ
unfolding fill_percents
percents_from_rollout rollout count = fill_percents count (weights_of rollout) (replicate count 0)
