-- ===== src/Dashboard/RuleForm/Reopen.antt =====
-- A rule that the form made, opened in the form again.
use flag_it.Common.{
  ℕ, Option, none, some, String, List, ◌≡◌, refl, sym, ap, ◌∙◌, str_eq, Bool-cases, inl, inr,
  length,
}
use flag_it.Flags.{Clause, VariationOrRollout}
use flag_it.Dashboard.Trim.{trim, trim_idempotent}
use flag_it.Dashboard.Rollouts.{
  if_filled, then_filled, weights_from, rollout_from_percents, percents_from_rollout,
}
use flag_it.Dashboard.Rollouts.Laws.{percents_from_rollout-rollout_from_percents}
use flag_it.Dashboard.RuleForm.{
  ServeMode, by_variation, by_rollout, Form, or_blank, Edit, open_form, edit_all, serve_by, served,
}
use flag_it.Dashboard.RuleForm.Submit.{length-edit_all, length-open_form}

-- What is handed on of a text field, and what is handed on after that is read back.
abbrev kept : String → Option String
kept s = then_filled (if_filled (trim s))

abbrev kept_again : String → Option String
kept_again s = kept (or_blank (kept s))

refill : (s : String) → kept_again s ≡ kept s
unfolding trim
refill s = elim (Bool-cases (str_eq (trim s) "")) [
  | inl blank ↦ rw (blank, trim) refl
  | inr filled ↦ rw (filled, filled, trim_idempotent s, filled, filled) refl
]

-- What a form that serves a rollout hands on.
abbrev by_weights : Option ℕ → List ℕ → Option String → Option String → VariationOrRollout
by_weights seed percents bucket_by context_kind = record {
  variation = none;
  rollout = some (record {
    variations = weights_from 0 percents;
    bucket_by = bucket_by;
    context_kind = context_kind;
    seed = seed;
  });
}

module _ {V : Type 0} where
  reopened :
      (count : ℕ) (m : ServeMode) (f : Form V)
      → length f.percents ≡ count
      → served (open_form count (some f.draft) (some (serve_by m f))) ≡ serve_by m f
  unfolding served open_form rollout_from_percents
  reopened count by_variation f h = refl
  reopened count by_rollout f h =
      ap (λ ps. by_weights f.seed ps (kept_again f.bucket_by) (kept_again f.context_kind))
        (ap (percents_from_rollout (some (rollout_from_percents f.percents none none none))) (sym h)
          ∙ percents_from_rollout-rollout_from_percents f.percents none none none)
      ∙ ap (λ b. by_weights f.seed f.percents b (kept_again f.context_kind)) (refill f.bucket_by)
      ∙ ap (by_weights f.seed f.percents (kept f.bucket_by)) (refill f.context_kind)

  -- A form that is opened on what an edited form serves, and not edited, serves the same.
  pub served-open_form :
      (count : ℕ) (ic : Option (List (Clause V))) (is : Option VariationOrRollout)
      (edits : List (Edit V))
      → served (
          open_form count
            (some (edit_all edits (open_form count ic is)).draft)
            (some (served (edit_all edits (open_form count ic is)))))
        ≡ served (edit_all edits (open_form count ic is))
  unfolding served
  served-open_form count ic is edits =
      reopened count (edit_all edits (open_form count ic is)).serve
        (edit_all edits (open_form count ic is))
        (length-edit_all edits (open_form count ic is) ∙ length-open_form count ic is)
