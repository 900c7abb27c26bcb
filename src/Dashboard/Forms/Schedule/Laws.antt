-- ===== src/Dashboard/Forms/Schedule/Laws.antt =====
-- The dialog and the scheduler of the backend together.
use mathlib.Core.Path.{subst}
use mathlib.Core.Option.{some-injective, none-ne-some}
use flag_it.Common.{
  ℕ, suc, Bool, true, false, Option, some, String, List, [], ◌∷◌, ◌≡◌, refl, sym, ap, ◌∙◌, All,
  str_eq, ◌||◌, Bool-cases, Option-cases, inl, inr,
}
use flag_it.Flags.{ScheduledChange, waiting}
use flag_it.Backend.Instructions.{apply_instructions}
use flag_it.Backend.Store.{
  Reply, json, Route, Store, lookup, or_new, config_key, config_at, apply_at,
}
use flag_it.Backend.Store.Lookups.{lookup-put}
use flag_it.Backend.Scheduled.{has_passed, is_due, run_list, run_due, create_scheduled}
use flag_it.Backend.Scheduled.Due.{run_list-idle, accepted}
use flag_it.Dashboard.Trim.{trim}
use flag_it.Dashboard.FlagPage.{of_kind}
use flag_it.Dashboard.Forms.Schedule.{Form, Input, kind_of_target, input_at, submit}

module _ {V : Type 0} (uuid iso : ℕ → String) (time_of : String → Option ℕ) where
  -- The switch that a kind sets, after the instructions were applied under a key.
  on-apply_at :
      (target : Bool) (k : String) (s : Store V)
      → (config_at k (apply_at uuid k (of_kind (kind_of_target target) ∷ []) s)).on ≡ target
  unfolding config_at apply_at apply_instructions
  on-apply_at true k s = ap (λ o. (or_new o).on) (lookup-put k _ s.configs)
  on-apply_at false k s = ap (λ o. (or_new o).on) (lookup-put k _ s.configs)

  -- No change of the list is due.
  abbrev pub IsIdle : ℕ → List (ScheduledChange V) → Type 0
  IsIdle later cs = All (λ c. is_due uuid iso time_of later c ≡ false) cs

  -- The change at the front is due and no other is.
  run_due-front :
      (later : ℕ) (c : ScheduledChange V) (cs : List (ScheduledChange V)) (s : Store V)
      → is_due uuid iso time_of later c ≡ true
      → IsIdle later cs
      → (run_due uuid iso time_of later (record s { scheduled = c ∷ cs })).configs
        ≡ (apply_at uuid
            (config_key c.flag_key c.environment_key)
            c.instructions
            (record s { scheduled = c ∷ cs })).configs
  unfolding run_due run_list
  run_due-front later c cs s due idle =
      rw (due, run_list-idle uuid iso time_of later cs _ idle) refl

  -- The two changes at the front are due and no other is: the first is applied first.
  run_due-two :
      (later : ℕ) (c d : ScheduledChange V) (cs : List (ScheduledChange V)) (s : Store V)
      → is_due uuid iso time_of later c ≡ true
      → is_due uuid iso time_of later d ≡ true
      → IsIdle later cs
      → (run_due uuid iso time_of later (record s { scheduled = c ∷ d ∷ cs })).configs
        ≡ (apply_at uuid (config_key d.flag_key d.environment_key) d.instructions (
            apply_at uuid
              (config_key c.flag_key c.environment_key)
              c.instructions
              (record s { scheduled = c ∷ d ∷ cs }))).configs
  unfolding run_due run_list
  run_due-two later c d cs s due due' idle =
      rw (due, due', run_list-idle uuid iso time_of later cs _ idle) refl

  -- What the page does with what the dialog hands on.
  abbrev pub ask : Route → ℕ → Input V → Store V → Store V × Reply (ScheduledChange V)
  ask route now i s =
      create_scheduled uuid iso time_of route (some i.comment) (some i.scheduled_for)
        (some i.instructions) now s

  module _ (to_iso : String → Option String) where
    -- A change that was accepted stands at the front, and is what the dialog asked for.
    record IsAsked (route : Route) (f : Form) (i : Input V) (c : ScheduledChange V) (s t : Store V)
        : Type 0 where
      kept : t ≡ record s { scheduled = c ∷ s.scheduled; issued = suc s.issued }
      key : config_key c.flag_key c.environment_key ≡ config_key route.flag_key route.env_key
      instructions : c.instructions ≡ of_kind (kind_of_target f.target) ∷ []
      status : c.status ≡ waiting
      time : c.scheduled_for ≡ i.scheduled_for

    handed_input :
        (f : Form) (i : Input V)
        → submit to_iso f ≡ some i
        → (time : String) × (record {
          instructions = of_kind (kind_of_target f.target) ∷ [];
          scheduled_for = time;
          comment = trim f.comment;
        }
            ≡ i)
    unfolding submit
    handed_input f i handed = elim (Bool-cases (str_eq f.when "")) [
      | inl empty ↦ absurd (none-ne-some i (rw empty at handed))
      | inr filled ↦
          let there : input_at to_iso (to_iso f.when) f ≡ some i = rw filled at handed in
          elim (Option-cases (to_iso f.when)) [
            | inl thrown ↦ absurd (none-ne-some i (rw thrown at there))
            | inr (time, read) ↦ (time, some-injective _ i (rw read at there))
          ]
    ]

    ask-IsAsked :
        (route : Route) (now : ℕ) (f : Form) (i : Input V) (s : Store V) (c : ScheduledChange V)
        → submit to_iso f ≡ some i
        → (ask route now i s).1 ≡ json c
        → IsAsked route f i c s (ask route now i s).0
    unfolding create_scheduled
    ask-IsAsked route now f i s c handed =
        let (time, same) = handed_input f i handed in
        subst (λ i. (ask route now i s).1 ≡ json c → IsAsked route f i c s (ask route now i s).0)
          same
          (λ reply.
            let (good, equal, kept) =
              accepted (str_eq time "" || has_passed (time_of time) now) _ _ _ _ _ c reply in
            record {
              kept =
                  kept
                  ∙ ap (λ d. record s { scheduled = d ∷ s.scheduled; issued = suc s.issued }) equal;
              key = ap (λ d. config_key d.flag_key d.environment_key) (sym equal);
              instructions = ap (λ d. d.instructions) (sym equal);
              status = ap (λ d. d.status) (sym equal);
              time = ap (λ d. d.scheduled_for) (sym equal);
            })

    due_at :
        {route : Route} {f : Form} {i : Input V} {c : ScheduledChange V} {s t : Store V} (later : ℕ)
        → IsAsked route f i c s t
        → has_passed (time_of i.scheduled_for) later ≡ true
        → is_due uuid iso time_of later c ≡ true
    due_at later asked passed = rw (asked.status, asked.time, passed) refl

    on_after :
        {route : Route} {f : Form} {i : Input V} {c : ScheduledChange V} {s t : Store V}
        (u : Store V)
        → IsAsked route f i c s t
        → (config_at
            (config_key route.flag_key route.env_key)
            (apply_at uuid (config_key c.flag_key c.environment_key) c.instructions u)).on
          ≡ f.target
    on_after {route} {f} u asked =
        rw (asked.key, asked.instructions)
          (on-apply_at f.target (config_key route.flag_key route.env_key) u)

    -- A change that the dialog hands on and the backend accepts sets the switch to what was chosen, when
    -- the scheduler runs after its time and no other change is due.
    pub submit-run_due :
        (route : Route) (now later : ℕ) (f : Form) (i : Input V) (s : Store V)
        (c : ScheduledChange V)
        → submit to_iso f ≡ some i
        → (ask route now i s).1 ≡ json c
        → has_passed (time_of i.scheduled_for) later ≡ true
        → IsIdle later s.scheduled
        → (config_at
            (config_key route.flag_key route.env_key)
            (run_due uuid iso time_of later (ask route now i s).0)).on
          ≡ f.target
    unfolding config_at
    submit-run_due route now later f i s c handed reply passed idle =
        let asked = ask-IsAsked route now f i s c handed reply in
        let k = config_key route.flag_key route.env_key in
        ap (λ t. (config_at k (run_due uuid iso time_of later t)).on) asked.kept
        ∙ ap (λ configs. (or_new (lookup k configs)).on)
            (run_due-front later c s.scheduled (record s { issued = suc s.issued })
              (due_at later asked passed) idle)
        ∙ on_after _ asked

    -- Two changes of a flag, handed on one after the other, both of whose times have passed when the
    -- scheduler runs next: the switch is left as the one that was handed on first says, whatever the
    -- two times are, when no other change is due.
    pub submit-run_due_two :
        (route : Route) (now now' later : ℕ) (f g : Form) (i j : Input V) (s : Store V)
        (c d : ScheduledChange V)
        → submit to_iso f ≡ some i
        → submit to_iso g ≡ some j
        → (ask route now i s).1 ≡ json c
        → (ask route now' j (ask route now i s).0).1 ≡ json d
        → has_passed (time_of i.scheduled_for) later ≡ true
        → has_passed (time_of j.scheduled_for) later ≡ true
        → IsIdle later s.scheduled
        → (config_at
            (config_key route.flag_key route.env_key)
            (run_due uuid iso time_of later (ask route now' j (ask route now i s).0).0)).on
          ≡ f.target
    unfolding config_at
    submit-run_due_two route now now' later f g i j s c d handed handed' reply reply' passed passed'
          idle =
        let first = ask-IsAsked route now f i s c handed reply in
        let second = ask-IsAsked route now' g j (ask route now i s).0 d handed' reply' in
        let k = config_key route.flag_key route.env_key in
        ap (λ t. (config_at k (run_due uuid iso time_of later t)).on)
          (second.kept
            ∙ ap {B = Store V}
                (λ (t : Store V). record t { scheduled = d ∷ t.scheduled; issued = suc t.issued })
                first.kept)
        ∙ ap (λ configs. (or_new (lookup k configs)).on)
            (run_due-two later d c s.scheduled (record s { issued = suc (suc s.issued) })
              (due_at later second passed') (due_at later first passed) idle)
        ∙ on_after _ first
