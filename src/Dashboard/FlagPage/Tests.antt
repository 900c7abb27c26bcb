-- ===== src/Dashboard/FlagPage/Tests.antt =====
-- The page of a flag at concrete configurations.
use flag_it.Common.{ℕ, ◌≡◌, refl, none, some, String, List, [], ◌∷◌}
use flag_it.Backend.Instructions.{Applied, new_config, apply_instructions}
use flag_it.Dashboard.FlagPage.{Action, removes_target, adds_rule, sends, shown_env}
use flag_it.Backend.Instructions.Typed.{IsTyped}
use flag_it.Dashboard.RuleForm.{Form, by_rollout, served}
use flag_it.Dashboard.FlagPage.Typed.{send_all, send_all-IsTyped}
use flag_it.Dashboard.FlagPage.Laws.{IsDone, sends-IsDone}

abbrev start : Applied ℕ
start = record {
  config = record new_config {
    targets = record { context_kind = "user"; values = "ada" ∷ "bob" ∷ []; variation = 1 } ∷ [];
  };
  issued = 0;
}

abbrev uuid : ℕ → String
uuid n = "rule"

sends-IsDone_example :
    IsDone "rule"
      (removes_target 1 "ada")
      start.config
      (apply_instructions uuid (sends (removes_target 1 "ada")) start).config
sends-IsDone_example = sends-IsDone uuid (removes_target 1 "ada") start (refl, tt) tt

-- Until an environment is picked the first one is shown, and none before they have come.
shown_env_test : shown_env "" (some ("prod" ∷ "dev" ∷ [])) ≡ "prod"
shown_env_test = refl

-- Half of the contexts each.
abbrev halves : Form ℕ
halves = record {
  draft = [];
  serve = by_rollout;
  variation = 0;
  percents = 50 ∷ 50 ∷ [];
  bucket_by = "";
  context_kind = "";
  seed = none;
}

abbrev actions : List (Action ℕ)
actions = adds_rule [] (served halves) ∷ removes_target 1 "ada" ∷ []

send_all-IsTyped_example :
    IsTyped (send_all uuid actions (record { config = new_config; issued = 0 })).config
send_all-IsTyped_example = send_all-IsTyped uuid 0 actions ((halves, refl), (tt, tt))
