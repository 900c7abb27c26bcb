-- ===== src/Dashboard/Clauses/Tests.antt =====
-- Values of clauses as text, and summaries of instructions.
use flag_it.Common.{ℕ, ◌≡◌, refl, none, some, [], ◌∷◌, true, str_eq, if◌then◌else◌}
use flag_it.Sdk.Json.{num, bool, str}
use flag_it.Dashboard.Trim.{trim}
use flag_it.Dashboard.Clauses.{JsonText, parse_values, display_values, clause_text}
use flag_it.Dashboard.Clauses.Laws.{parse_values-display_values}
use flag_it.Dashboard.FlagPage.{of_kind}
use flag_it.Dashboard.InstructionTexts.{instructions_text}

-- JSON, as far as the tests go.
abbrev texts : JsonText ℕ
texts = record {
  parse = λ t.
      if str_eq t "true" then some (bool true) else if str_eq t "7" then some (num 7) else none;
  stringify = λ v. elim v [ num n ↦ "7" | _ ↦ "true" ];
}

parse_values-display_values_example :
    parse_values texts (display_values texts (str "es" ∷ num 7 ∷ bool true ∷ []))
    ≡ str "es" ∷ num 7 ∷ bool true ∷ []
unfolding trim
parse_values-display_values_example =
    parse_values-display_values texts (str "es" ∷ num 7 ∷ bool true ∷ []) (
      record { trimmed = refl; filled = refl; clean = (refl, (refl, tt)); read = refl },
      (
        record { trimmed = refl; filled = refl; clean = (refl, tt); read = refl },
        (
          record {
            trimmed = refl;
            filled = refl;
            clean = (refl, (refl, (refl, (refl, tt))));
            read = refl;
          },
          tt,
        ),
      ),
    )

clause_text_test :
    clause_text texts (record {
      context_kind = none;
      attribute = some "country";
      op = "in";
      values = str "es" ∷ num 7 ∷ [];
      negate = some true;
    })
    ≡ "user.country not (is one of) [es, 7]"
unfolding clause_text
clause_text_test = refl

-- A rule that is added with a rollout has no variation.
rollout_text_test :
    instructions_text (λ n. "1") {V = ℕ} (of_kind "addRule" ∷ [])
    ≡ "Add a targeting rule serving #undefined"
unfolding instructions_text
rollout_text_test = refl
