-- ===== src/Dashboard/Forms/Schedule.antt =====
-- The dialog that schedules a change, web/src/features/flags/components/ScheduleChangeDialog.tsx. The
-- local time of a date is the parameter `local`, the text of a number `decimal`, and `to_iso` is
-- `new Date(text).toISOString()`, none where it throws.
pub mod Laws
mod Tests
use Prim.Native.String
use flag_it.Common.{
  ℕ, ◌+◌, ◌*◌, Bool, true, false, not, Option, none, some, String, List, [], ◌∷◌, str_eq,
  if◌then◌else◌,
}
use flag_it.Flags.{FlagInstruction}
use flag_it.Dashboard.Api.{◌<>◌}
use flag_it.Dashboard.Trim.{trim}
use flag_it.Dashboard.FlagPage.{of_kind}

-- What `getFullYear` to `getMinutes` give; months are counted from zero.
pub record LocalTime : Type 0 where
  pub year : ℕ
  pub month : ℕ
  pub day : ℕ
  pub hours : ℕ
  pub minutes : ℕ

-- `text.padStart(2, '0')`
abbrev pub pad_start : String → String
pad_start String.[] = "00"
pad_start (String.◌∷◌ c String.[]) = "0" <> String.◌∷◌ c String.[]
pad_start (String.◌∷◌ c (String.◌∷◌ d s)) = String.◌∷◌ c (String.◌∷◌ d s)

pub record Form : Type 0 where
  pub open_now : Bool
  pub target : Bool
  pub when : String
  pub comment : String

-- The initial state, of whether the flag is on.
abbrev pub blank : Bool → Form
blank current_on = record { open_now = false; target = not current_on; when = ""; comment = "" }

pub data Edit : Type 0 where
  opens : ℕ → Edit
  closes : Edit
  picks_target : Bool → Edit
  types_when : String → Edit
  types_comment : String → Edit
  submits : Edit

-- What `onSubmit` is called with.
pub record Input (V : Type 0) : Type 0 where
  pub instructions : List (FlagInstruction V)
  pub scheduled_for : String
  pub comment : String

module _ (local : ℕ → LocalTime) (decimal : ℕ → String) where
  -- An hour after the time, for an input of type `datetime-local`.
  unfoldable pub default_local_date_time : ℕ → String
  default_local_date_time from =
      let d = local (from + 60 * 60 * 1000) in
      let pad = λ (n : ℕ). pad_start (decimal n) in
      decimal d.year
      <> "-"
      <> pad (d.month + 1)
      <> "-"
      <> pad d.day
      <> "T"
      <> pad d.hours
      <> ":"
      <> pad d.minutes

abbrev pub kind_of_target : Bool → String
kind_of_target true = "turnFlagOn"
kind_of_target false = "turnFlagOff"

module _ (to_iso : String → Option String) {V : Type 0} where
  abbrev pub input_at : Option String → Form → Option (Input V)
  input_at none f = none
  input_at (some time) f = some (record {
    instructions = of_kind (kind_of_target f.target) ∷ [];
    scheduled_for = time;
    comment = trim f.comment;
  })

  -- `handleSubmit`: what is handed on.
  unfoldable pub submit : Form → Option (Input V)
  submit f = if str_eq f.when "" then none else input_at (to_iso f.when) f

module _ (local : ℕ → LocalTime) (decimal : ℕ → String) (to_iso : String → Option String) where
  abbrev pub closed_if : Option String → Form → Form
  closed_if none f = f
  closed_if (some time) f = record f { open_now = false }

  -- One callback. Opening the dialog at a time seeds the state; handing on closes it.
  unfoldable pub edit : Bool → Edit → Form → Form
  unfolding default_local_date_time
  edit current_on (opens now) f = record {
    open_now = true;
    target = not current_on;
    when = default_local_date_time local decimal now;
    comment = "";
  }
  edit current_on closes f = record f { open_now = false }
  edit current_on (picks_target v) f = record f { target = v }
  edit current_on (types_when v) f = record f { when = v }
  edit current_on (types_comment v) f = record f { comment = v }
  edit current_on submits f = if str_eq f.when "" then f else closed_if (to_iso f.when) f
