-- ===== src/Dashboard/Forms/Schedule/Tests.antt =====
-- Changes that are scheduled and become due.
use flag_it.Common.{
  ℕ, true, false, Option, none, some, String, [], ◌∷◌, ◌≡◌, refl, str_eq, ◌==◌, if◌then◌else◌,
}
use flag_it.Flags.{ScheduledChange, waiting}
use flag_it.Backend.Store.{Route, Store, config_at, config_key}
use flag_it.Backend.Scheduled.{run_due, create_scheduled}
use flag_it.Dashboard.Trim.{trim}
use flag_it.Dashboard.FlagPage.{of_kind}
use flag_it.Dashboard.Forms.Schedule.{Form, Input, default_local_date_time, submit}
use flag_it.Dashboard.Forms.Schedule.Laws.{ask, submit-run_due, submit-run_due_two}

abbrev text_of : ℕ → String
text_of n = "x"

-- "ten" and "eleven" are the only times.
abbrev time_of : String → Option ℕ
time_of t = if str_eq t "ten" then some 10 else if str_eq t "eleven" then some 11 else none

abbrev route : Route
route = record { project_key = "shop"; env_key = "production"; flag_key = "dark" }

abbrev start : Store ℕ
start = record { configs = []; changes = []; scheduled = []; issued = 0 }

abbrev turns_on : Form
turns_on = record { open_now = true; target = true; when = "ten"; comment = " launch " }

abbrev turns_off : Form
turns_off = record { open_now = true; target = false; when = "eleven"; comment = "" }

abbrev on_at_ten : Input ℕ
on_at_ten = record {
  instructions = of_kind "turnFlagOn" ∷ [];
  scheduled_for = "ten";
  comment = "launch";
}

abbrev off_at_eleven : Input ℕ
off_at_eleven = record {
  instructions = of_kind "turnFlagOff" ∷ [];
  scheduled_for = "eleven";
  comment = "";
}

abbrev change : Input ℕ → String → ScheduledChange ℕ
change i id = record {
  id = id;
  project_id = "shop";
  environment_id = "production";
  environment_key = "production";
  flag_key = "dark";
  instructions = i.instructions;
  comment = i.comment;
  scheduled_for = i.scheduled_for;
  status = waiting;
  error = none;
  created_by = "u1";
  created_by_email = "admin@flag-it.dev";
  created_at = "x";
  applied_at = none;
}

submit-run_due_example :
    (config_at (config_key "dark" "production") (
      run_due text_of text_of time_of 12
        (ask text_of text_of time_of route 1 on_at_ten start).0)).on
    ≡ true
unfolding submit create_scheduled trim
submit-run_due_example =
    submit-run_due text_of text_of time_of some route 1 12 turns_on on_at_ten start
      (change on_at_ten "x") refl refl refl tt

-- On at ten and off at eleven leave the flag on.
submit-run_due_two_example :
    (config_at (config_key "dark" "production") (
      run_due text_of text_of time_of 12
        (ask text_of text_of time_of route 2 off_at_eleven
          (ask text_of text_of time_of route 1 on_at_ten start).0).0)).on
    ≡ true
unfolding submit create_scheduled trim
submit-run_due_two_example =
    submit-run_due_two text_of text_of time_of some route 1 2 12 turns_on turns_off on_at_ten
      off_at_eleven start (change on_at_ten "x") (change off_at_eleven "x") refl refl refl refl refl
      refl tt

default_test :
    default_local_date_time
      (λ n. record { year = 2026; month = 0; day = 12; hours = 9; minutes = 1 })
      (λ n. if n == 2026 then "2026" else if n == 12 then "12" else if n == 9 then "9" else "1")
      0
    ≡ "2026-01-12T09:01"
unfolding default_local_date_time
default_test = refl
