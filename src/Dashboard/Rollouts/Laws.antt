-- ===== src/Dashboard/Rollouts/Laws.antt =====
-- The sums of percentages and weights, and the way from percentages to a rollout and back.
use flag_it.Common.{
  ℕ, zero, suc, ◌+◌, ◌*◌, ◌/◌, ◌<◌, true, Option, some, String, List, [], ◌∷◌, ◌++◌, ◌≡◌, refl, sym,
  ap, ◌∙◌, arith, ltb, length, length-replicate, length-append, replicate, set, set-at, map,
}
use native.Mathlib.Nat.{mul-suc, div-mul-le_self}
use flag_it.Flags.{Weighted}
use flag_it.Dashboard.Rollouts.{
  sum, even_percents, weights_from, rollout_from_percents, round_percent, fill_percents,
  percents_from_rollout,
}

sum-replicate : (n b : ℕ) → sum (replicate n b) ≡ b * n
unfolding sum
sum-replicate zero b = omega arith
sum-replicate (suc n) b = omega (arith, sum-replicate n b, mul-suc b n)

-- An even split has one percentage for each variation, and they sum to exactly 100 if there is any.
pub even_percents_lem :
    (n : ℕ) → (length (even_percents (suc n)) ≡ suc n) × (sum (even_percents (suc n)) ≡ 100)
unfolding even_percents sum
even_percents_lem n = (
  ap suc (length-replicate n (100 / suc n)),
  (omega
      (arith, sum-replicate n (100 / suc n), mul-suc (100 / suc n) n, div-mul-le_self 100 (suc n))),
)

pub sum-weights_from :
    (i : ℕ) (ps : List ℕ) → sum (map (λ w. w.weight) (weights_from i ps)) ≡ sum ps * 1000
unfolding sum weights_from
sum-weights_from i [] = omega arith
sum-weights_from i (p ∷ ps) = omega (arith, sum-weights_from (suc i) ps)

append-snoc : (pre : List ℕ) (y : ℕ) (post : List ℕ) → (pre ++ y ∷ []) ++ post ≡ pre ++ y ∷ post
append-snoc [] y post = refl
append-snoc (z ∷ pre) y post = ap (λ t. z ∷ t) (append-snoc pre y post)

ltb_of : (a b : ℕ) → a < b → ltb a b ≡ true
ltb_of a b h = ground arith

round_percent_lem : (p : ℕ) → round_percent (p * 1000) ≡ p
round_percent_lem p = omega arith

fill_percents-nil : (count : ℕ) (out : List ℕ) → fill_percents count [] out ≡ out
unfolding fill_percents
fill_percents-nil count out = refl

fill_percents-next :
    (count i weight : ℕ) (ws : List Weighted) (out : List ℕ)
    → i < count
    → fill_percents count (record { variation = i; weight = weight } ∷ ws) out
      ≡ fill_percents count ws (set out i (round_percent weight))
unfolding fill_percents
fill_percents-next count i weight ws out h = rw (ltb_of i count h) refl

fill_percents-weights_from :
    (count i : ℕ) (pre ps : List ℕ)
    → i ≡ length pre
    → count ≡ i + length ps
    → fill_percents count (weights_from i ps) (pre ++ replicate (length ps) 0) ≡ pre ++ ps
unfolding weights_from
fill_percents-weights_from count i pre [] at h = fill_percents-nil count (pre ++ [])
fill_percents-weights_from count i pre (p ∷ ps) at h =
    fill_percents-next count i (p * 1000) (weights_from (suc i) ps)
      (pre ++ 0 ∷ replicate (length ps) 0) (omega (arith, h))
    ∙ ap (fill_percents count (weights_from (suc i) ps)) (
        ap (λ j. set (pre ++ 0 ∷ replicate (length ps) 0) j (round_percent (p * 1000))) at
        ∙ set-at pre 0 (round_percent (p * 1000)) (replicate (length ps) 0)
        ∙ ap (λ q. pre ++ q ∷ replicate (length ps) 0) (round_percent_lem p)
        ∙ sym (append-snoc pre p (replicate (length ps) 0)))
    ∙ fill_percents-weights_from count (suc i) (pre ++ p ∷ []) ps
        (omega (arith, at, length-append pre (p ∷ []))) (omega (arith, h))
    ∙ append-snoc pre p ps

-- The percentages that a rollout was made from come back from it.
pub percents_from_rollout-rollout_from_percents :
    (percents : List ℕ) (bucket_by context_kind : Option String) (seed : Option ℕ)
    → percents_from_rollout
        (some (rollout_from_percents percents bucket_by context_kind seed))
        (length percents)
      ≡ percents
unfolding percents_from_rollout rollout_from_percents
percents_from_rollout-rollout_from_percents percents bucket_by context_kind seed =
    fill_percents-weights_from (length percents) 0 [] percents refl (omega arith)
