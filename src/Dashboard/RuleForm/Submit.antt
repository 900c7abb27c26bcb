-- ===== src/Dashboard/RuleForm/Submit.antt =====
-- What the form of a rule hands on.
use flag_it.Common.{
  ℕ, zero, suc, ◌*◌, Bool, true, Option, none, some, List, [], ◌∷◌, ◌≡◌, refl, sym, ap, ◌∙◌, arith,
  ◌&&◌, ◌||◌, ◌==◌, ==_iff, Bool-cases, inl, inr, length, length-replicate, replicate, set, map,
  ltb, all,
}
use mathlib.Core.Option.{some-injective, none-ne-some}
use flag_it.Flags.{Clause, Weighted, Rollout, VariationOrRollout}
use flag_it.Dashboard.Rollouts.{
  sum, even_percents, weights_from, rollout_from_percents, round_percent, fill_percents,
  percents_from_rollout,
}
use flag_it.Dashboard.Rollouts.Laws.{even_percents_lem, sum-weights_from}
use flag_it.Dashboard.RuleForm.{
  ServeMode, by_variation, by_rollout, Form, rollout_of, start_percents, is_by_variation, Edit,
  change_clause, remove_clause, add_clause, choose_mode, choose_variation, type_percent,
  type_bucket_by, type_context_kind, reshuffle, reset_seed, open_form, edit, edit_all, is_drafted,
  is_clause_valid, can_submit, serve_by, served, submit,
}

length-set : (xs : List ℕ) (i v : ℕ) → length (set xs i v) ≡ length xs
length-set [] i v = refl
length-set (x ∷ xs) zero v = refl
length-set (x ∷ xs) (suc i) v = ap suc (length-set xs i v)

length-fill_percents :
    (count : ℕ) (ws : List Weighted) (out : List ℕ)
    → length (fill_percents count ws out) ≡ length out
unfolding fill_percents
length-fill_percents count [] out = refl
length-fill_percents count (w ∷ ws) out = elim (Bool-cases (ltb w.variation count)) [
  | inl inside ↦ rw inside (
      length-fill_percents count ws (set out w.variation (round_percent w.weight))
      ∙ length-set out w.variation (round_percent w.weight))
  | inr outside ↦ rw outside (length-fill_percents count ws out)
]

length-even_percents : (count : ℕ) → length (even_percents count) ≡ count
unfolding even_percents
length-even_percents zero = refl
length-even_percents (suc n) = (even_percents_lem n).0

length-start_percents : (count : ℕ) (o : Option Rollout) → length (start_percents count o) ≡ count
unfolding percents_from_rollout
length-start_percents count none = length-even_percents count
length-start_percents count (some r) =
    length-fill_percents count r.variations (replicate count 0) ∙ length-replicate count 0

-- The indices of the variations, from `i`.
unfoldable pub indices : ℕ → ℕ → List ℕ
indices i zero = []
indices i (suc n) = i ∷ indices (suc i) n

indices-weights_from :
    (i : ℕ) (ps : List ℕ) → map (λ w. w.variation) (weights_from i ps) ≡ indices i (length ps)
unfolding weights_from indices
indices-weights_from i [] = refl
indices-weights_from i (p ∷ ps) = ap (λ t. i ∷ t) (indices-weights_from (suc i) ps)

and_right : (a b : Bool) → (a && b) ≡ true → b ≡ true
and_right a b h = ground arith

module _ {V : Type 0} where
  length-edit : (e : Edit V) (f : Form V) → length (edit e f).percents ≡ length f.percents
  unfolding edit
  length-edit (change_clause i c) f = refl
  length-edit (remove_clause i) f = refl
  length-edit add_clause f = refl
  length-edit (choose_mode m) f = refl
  length-edit (choose_variation v) f = refl
  length-edit (type_percent i n) f = length-set f.percents i _
  length-edit (type_bucket_by s) f = refl
  length-edit (type_context_kind s) f = refl
  length-edit (reshuffle n) f = refl
  length-edit reset_seed f = refl

  pub length-edit_all :
      (edits : List (Edit V)) (f : Form V) → length (edit_all edits f).percents ≡ length f.percents
  unfolding edit_all
  length-edit_all [] f = refl
  length-edit_all (e ∷ edits) f = length-edit_all edits (edit e f) ∙ length-edit e f

  pub length-open_form :
      (count : ℕ) (ic : Option (List (Clause V))) (is : Option VariationOrRollout)
      → length (open_form count ic is).percents ≡ count
  unfolding open_form
  length-open_form count ic is = length-start_percents count (rollout_of is)

  -- The weights that a form in the mode serves by.
  serve_by-weights :
      (m : ServeMode) (f : Form V) (r : Rollout)
      → (is_by_variation m || sum f.percents == 100) ≡ true
      → (serve_by m f).rollout ≡ some r
      → (sum (map (λ w. w.weight) r.variations) ≡ 100000)
        × (map (λ w. w.variation) r.variations ≡ indices 0 (length f.percents))
  unfolding rollout_from_percents
  serve_by-weights by_variation f r valid h = absurd (none-ne-some r h)
  serve_by-weights by_rollout f r valid h =
      let same = ap (λ q. q.variations) (some-injective _ r h) in
      (
        ap (λ ws. sum (map (λ w. w.weight) ws)) (sym same)
            ∙ sum-weights_from 0 f.percents
            ∙ ap (λ n. n * 1000) ((==_iff (sum f.percents) 100).0 valid),
        ap (map (λ w. w.variation)) (sym same) ∙ indices-weights_from 0 f.percents,
      )

  submitted :
      (count : ℕ) (ic : Option (List (Clause V))) (is : Option VariationOrRollout) (f : Form V)
      (clauses : List (Clause V)) (s : VariationOrRollout)
      → (submit count ic is f).0 ≡ some (clauses, s)
      → (can_submit f ≡ true) × (served f ≡ s)
  unfolding submit
  submitted count ic is f clauses s h = elim (Bool-cases (can_submit f)) [
    | inl can ↦ (
      can,
      ap (λ q. q.1) (some-injective (f.draft, served f) (clauses, s) (sym (rw can refl) ∙ h)),
    )
    | inr cannot ↦ absurd (none-ne-some (clauses, s) (sym (rw cannot refl) ∙ h))
  ]

  -- However the form is edited, a rollout that it hands on has one weight for each variation of the
  -- flag, in order, and the weights sum to 100000.
  pub submit-weights :
      (count : ℕ) (ic : Option (List (Clause V))) (is : Option VariationOrRollout)
      (edits : List (Edit V)) (clauses : List (Clause V)) (s : VariationOrRollout) (r : Rollout)
      → (submit count ic is (edit_all edits (open_form count ic is))).0 ≡ some (clauses, s)
      → s.rollout ≡ some r
      → (sum (map (λ w. w.weight) r.variations) ≡ 100000)
        × (map (λ w. w.variation) r.variations ≡ indices 0 count)
  unfolding can_submit served
  submit-weights count ic is edits clauses s r h h' =
      let f : Form V = edit_all edits (open_form count ic is) in
      let (can, same) = submitted count ic is f clauses s h in
      let (total, order) =
        serve_by-weights f.serve f r
          (and_right (is_drafted f.draft && all is_clause_valid f.draft) _ can)
          (ap (λ q. q.rollout) same ∙ h') in
      (
        total,
        order
            ∙ ap (indices 0)
                (length-edit_all edits (open_form count ic is) ∙ length-open_form count ic is),
      )
