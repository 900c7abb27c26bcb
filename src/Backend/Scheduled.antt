-- ===== src/Backend/Scheduled.antt =====
-- The scheduled changes of web/src/mocks/handlers.ts. `uuid` is `crypto.randomUUID`, `iso` the text of
-- a time, and `time_of` what `new Date(text).getTime()` is, `none` for `NaN`.
pub mod Due
use flag_it.Common.{
  ℕ, suc, Bool, true, false, Option, none, some, String, List, [], ◌∷◌, str_eq, if◌then◌else◌, ◌&&◌,
  ◌||◌, not, leb, find, filterb, update_first,
}
use flag_it.Flags.{
  FlagInstruction, ScheduledStatus, waiting, applied, cancelled, failed, ScheduledChange,
}
use flag_it.Backend.Store.{Reply, json, failure, Route, Store, config_key, apply_at}
use flag_it.Backend.Changes.{mock_user_id, mock_user_email, or_empty, matches}

abbrev pub is_waiting : ScheduledStatus → Bool
is_waiting waiting = true
is_waiting applied = false
is_waiting cancelled = false
is_waiting failed = false

abbrev pub scheduled_status_text : ScheduledStatus → String
scheduled_status_text waiting = "pending"
scheduled_status_text applied = "applied"
scheduled_status_text cancelled = "cancelled"
scheduled_status_text failed = "failed"

-- `time <= now`, which is false for `NaN`.
abbrev pub has_passed : Option ℕ → ℕ → Bool
has_passed none now = false
has_passed (some t) now = leb t now

module _ {V : Type 0} (uuid iso : ℕ → String) (time_of : String → Option ℕ) where
  abbrev pub is_due : ℕ → ScheduledChange V → Bool
  is_due now c = is_waiting c.status && has_passed (time_of c.scheduled_for) now

  abbrev pub done : ℕ → ScheduledChange V → ScheduledChange V
  done now c = record c { status = applied; applied_at = some (iso now) }

  -- The loop over the scheduled changes: the store with the configurations they leave, and what
  -- becomes of the changes.
  unfoldable pub run_list :
      ℕ → List (ScheduledChange V) → Store V → Store V × List (ScheduledChange V)
  unfolding apply_at
  run_list now [] s = (s, [])
  run_list now (c ∷ cs) s =
      let next =
        if is_due now c
        then apply_at uuid (config_key c.flag_key c.environment_key) c.instructions s
        else s in
      let (t, ds) = run_list now cs next in (t, (if is_due now c then done now c else c) ∷ ds)

  -- `runDueScheduledChanges` at the time `now`.
  unfoldable pub run_due : ℕ → Store V → Store V
  unfolding run_list
  run_due now s = let (t, cs) = run_list now s.scheduled s in record t { scheduled = cs }

  -- `GET …/scheduled-changes`
  unfoldable pub list_scheduled :
      Option String
      → Option String
      → Option String
      → ℕ
      → Store V
      → Store V × Reply (List (ScheduledChange V))
  unfolding run_due
  list_scheduled status flag env now s =
      let t = run_due now s in
      (
        t,
        json (
            filterb
              (λ c.
                matches status (scheduled_status_text c.status)
                && (matches flag c.flag_key && matches env c.environment_key))
              t.scheduled),
      )

  -- `POST …/scheduled-changes` at the time `now`; the body's `scheduled_for` may be missing.
  unfoldable pub create_scheduled :
      Route
      → Option String
      → Option String
      → Option (List (FlagInstruction V))
      → ℕ
      → Store V
      → Store V × Reply (ScheduledChange V)
  create_scheduled route comment time none now s =
      (s, failure 400 "at least one instruction is required")
  create_scheduled route comment time (some []) now s =
      (s, failure 400 "at least one instruction is required")
  create_scheduled route comment time (some (ins ∷ instructions)) now s =
      let c : ScheduledChange V = record {
        id = uuid s.issued;
        project_id = route.project_key;
        environment_id = route.env_key;
        environment_key = route.env_key;
        flag_key = route.flag_key;
        instructions = ins ∷ instructions;
        comment = or_empty comment;
        scheduled_for = or_empty time;
        status = waiting;
        error = none;
        created_by = mock_user_id;
        created_by_email = mock_user_email;
        created_at = iso now;
        applied_at = none;
      } in
      if str_eq (or_empty time) "" || has_passed (time_of (or_empty time)) now
      then (s, failure 400 "scheduled_for must be in the future")
      else (record s { scheduled = c ∷ s.scheduled; issued = suc s.issued }, json c)

  abbrev pub is_scheduled : String → ScheduledChange V → Bool
  is_scheduled x c = str_eq c.id x

  unfoldable pub cancel_found :
      Option (ScheduledChange V) → String → Store V → Store V × Reply (ScheduledChange V)
  cancel_found none x s = (s, failure 404 "not found")
  cancel_found (some c) x s =
      if is_waiting c.status
      then (
        record s {
          scheduled =
              update_first (is_scheduled x) (λ d. record d { status = cancelled }) s.scheduled;
        },
        json (record c { status = cancelled }),
      )
      else (s, failure 404 "not found")

  -- `POST …/scheduled-changes/:scheduledId/cancel`
  unfoldable pub cancel : String → Store V → Store V × Reply (ScheduledChange V)
  unfolding cancel_found
  cancel x s = cancel_found (find (is_scheduled x) s.scheduled) x s
