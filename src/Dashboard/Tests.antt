-- ===== src/Dashboard/Tests.antt =====
-- The theorems on the dashboard, applied to concrete forms.
use flag_it.Common.{
  never_both, str_eq, eq_iff, ◌≢◌, String, ℕ, false, none, some, List, [], ◌∷◌, ◌≡◌, refl, map, pos,
}
use mathlib.Core.Option.{some-injective}
use flag_it.Flags.{Clause, FlagRule, Rollout}
use flag_it.Dashboard.Trim.{trim}
use flag_it.Dashboard.Rollouts.{sum}
use flag_it.Dashboard.RuleForm.{
  by_rollout, Edit, change_clause, choose_mode, type_percent, type_bucket_by, open_form, edit_all,
  can_submit, served, submit,
}
use flag_it.Dashboard.RuleForm.Submit.{indices, submit-weights}
use flag_it.Backend.Rules.{reorder_rules}
use flag_it.Dashboard.FlagRules.{up, down, given_ids, move}
use flag_it.Dashboard.FlagRules.Moves.{move-reorder_rules}
use flag_it.Dashboard.RuleForm.Reopen.{served-open_form}

trim_test : trim " a b  " ≡ "a b"
unfolding trim
trim_test = refl

abbrev clause : Clause ℕ
clause = record {
  context_kind = some "user";
  attribute = some "country";
  op = "in";
  values = 1 ∷ [];
  negate = none;
}

abbrev edits : List (Edit ℕ)
edits =
    change_clause 0 clause
    ∷ choose_mode by_rollout
    ∷ type_percent 0 (some (pos 30))
    ∷ type_percent 1 (some (pos 70))
    ∷ type_bucket_by " account "
    ∷ []

abbrev thirty_seventy : Rollout
thirty_seventy = record {
  variations =
      record { variation = 0; weight = 30000 } ∷ record { variation = 1; weight = 70000 } ∷ [];
  bucket_by = some "account";
  context_kind = none;
  seed = none;
}

submit-weights_example :
    (sum (map (λ w. w.weight) thirty_seventy.variations) ≡ 100000)
    × (map (λ w. w.variation) thirty_seventy.variations ≡ indices 0 2)
unfolding submit edit_all
submit-weights_example =
    submit-weights {V = ℕ} 2 none none edits (clause ∷ [])
      (record { variation = none; rollout = some thirty_seventy }) thirty_seventy refl refl

served-open_form_example :
    served (
      open_form 2
        (some (edit_all edits (open_form 2 none none)).draft)
        (some (served (edit_all edits (open_form 2 none none)))))
    ≡ served (edit_all edits (open_form 2 none none))
served-open_form_example = served-open_form 2 none none edits

-- Thirds, which are no whole percentages: the weights sum to 100000, and the form that is opened on
-- them cannot be submitted.
abbrev thirds : Rollout
thirds = record {
  variations =
      record { variation = 0; weight = 33333 }
      ∷ record { variation = 1; weight = 33333 }
      ∷ record { variation = 2; weight = 33334 }
      ∷ [];
  bucket_by = none;
  context_kind = none;
  seed = none;
}

thirds_test :
    can_submit
      (open_form 3 (some (clause ∷ [])) (some (record { variation = none; rollout = some thirds })))
    ≡ false
unfolding can_submit open_form
thirds_test = refl

differ : (x y : String) → str_eq x y ≡ false → some x ≢ some y
differ x y h e = never_both (str_eq x y) ((eq_iff x y).1 (some-injective x y e)) h

abbrev rule_of : String → FlagRule ℕ
rule_of x = record { id = some x; clauses = clause ∷ []; variation = some 0; rollout = none }

move-reorder_rules_example :
    (move 1 down (rule_of "a" ∷ rule_of "b" ∷ rule_of "c" ∷ [])
      ≡ some (given_ids (rule_of "a" ∷ rule_of "c" ∷ rule_of "b" ∷ [])))
    × (move 2 up (rule_of "a" ∷ rule_of "b" ∷ rule_of "c" ∷ [])
        ≡ some (given_ids (rule_of "a" ∷ rule_of "c" ∷ rule_of "b" ∷ [])))
    × (reorder_rules
          (given_ids (rule_of "a" ∷ rule_of "c" ∷ rule_of "b" ∷ []))
          (rule_of "a" ∷ rule_of "b" ∷ rule_of "c" ∷ [])
        ≡ rule_of "a" ∷ rule_of "c" ∷ rule_of "b" ∷ [])
move-reorder_rules_example =
    move-reorder_rules (rule_of "a" ∷ []) (rule_of "b") (rule_of "c") []
      (("a", refl, refl), (("b", refl, refl), (("c", refl, refl), tt)))
      ((differ "a" "b" refl, (differ "a" "c" refl, tt)), ((differ "b" "c" refl, tt), (tt, tt)))
