-- ===== src/Backend/Scheduled/Due.antt =====
-- Which scheduled changes a run of the scheduler leaves to be applied.
use flag_it.Common.{
  ℕ, Bool, true, false, Option, none, some, String, List, [], ◌∷◌, ◌≡◌, refl, ap, arith, ◌∙◌,
  Bool-cases, inl, inr, All, ◌||◌, str_eq, if◌then◌else◌,
}
use mathlib.Core.Option.{some-injective, none-ne-some}
use flag_it.Flags.{FlagInstruction, waiting, ScheduledChange}
use flag_it.Backend.Store.{Reply, json, failure, Route, Store}
use flag_it.Backend.Changes.{or_empty}
use flag_it.Backend.Scheduled.{has_passed, is_due, run_list, run_due, create_scheduled}

abbrev body_of : {A : Type 0} → Reply A → Option A
body_of (json a) = some a
body_of (failure n s) = none

or_right : (b c : Bool) → (b || c) ≡ false → c ≡ false
or_right b c h = ground arith

-- The outcome of a handler that refuses if the test holds.
abbrev pub outcome : {A S : Type 0} → Bool → S → S → ℕ → String → A → S × Reply A
outcome b s t n detail a = if b then (s, failure n detail) else (t, json a)

pub accepted :
    {A S : Type 0}
    → (b : Bool) (s t : S) (n : ℕ) (detail : String) (a c : A)
    → (outcome b s t n detail a).1 ≡ json c
    → (b ≡ false) × (a ≡ c) × ((outcome b s t n detail a).0 ≡ t)
accepted true s t n detail a c h = absurd (none-ne-some c (ap body_of h))
accepted false s t n detail a c h = (refl, some-injective a c (ap body_of h), refl)

module _ {V : Type 0} (uuid iso : ℕ → String) (time_of : String → Option ℕ) where
  run_list-none_due :
      (now : ℕ) (cs : List (ScheduledChange V)) (s : Store V)
      → All (λ c. is_due uuid iso time_of now c ≡ false) (run_list uuid iso time_of now cs s).1
  unfolding run_list
  run_list-none_due now [] s = tt
  run_list-none_due now (c ∷ cs) s = elim (Bool-cases (is_due uuid iso time_of now c)) [
    | inl due ↦ rw due (refl, run_list-none_due now cs _)
    | inr not_due ↦ rw not_due (not_due, run_list-none_due now cs s)
  ]

  pub run_list-idle :
      (now : ℕ) (cs : List (ScheduledChange V)) (s : Store V)
      → All (λ c. is_due uuid iso time_of now c ≡ false) cs
      → run_list uuid iso time_of now cs s ≡ (s, cs)
  unfolding run_list
  run_list-idle now [] s h = refl
  run_list-idle now (c ∷ cs) s h = rw (h.0, run_list-idle now cs s h.1) refl

  -- Running the scheduler again at the same time changes nothing: no change is applied twice.
  pub run_due_idempotent :
      (now : ℕ) (s : Store V)
      → run_due uuid iso time_of now (run_due uuid iso time_of now s)
        ≡ run_due uuid iso time_of now s
  unfolding run_due
  run_due_idempotent now s =
      rw
        (run_list-idle now (run_list uuid iso time_of now s.scheduled s).1
          (record (run_list uuid iso time_of now s.scheduled s).0 {
            scheduled = (run_list uuid iso time_of now s.scheduled s).1;
          })
          (run_list-none_due now s.scheduled s))
        refl

  -- A scheduled change that is accepted is kept at the front of the list, and is not due yet.
  pub create_scheduled-not_due :
      (route : Route) (comment time : Option String) (body : Option (List (FlagInstruction V)))
      (now : ℕ) (s : Store V) (c : ScheduledChange V)
      → (create_scheduled uuid iso time_of route comment time body now s).1 ≡ json c
      → (is_due uuid iso time_of now c ≡ false)
        × ((create_scheduled uuid iso time_of route comment time body now s).0.scheduled
            ≡ c ∷ s.scheduled)
  unfolding create_scheduled
  create_scheduled-not_due route comment time none now s c h =
      absurd (none-ne-some c (ap body_of h))
  create_scheduled-not_due route comment time (some []) now s c h =
      absurd (none-ne-some c (ap body_of h))
  create_scheduled-not_due route comment time (some (ins ∷ instructions)) now s c h =
      let (good, same, kept) =
        accepted (str_eq (or_empty time) "" || has_passed (time_of (or_empty time)) now) _ _ _ _ _ c
          h in
      (
        rw (← same) (or_right (str_eq (or_empty time) "") _ good),
        ap (λ t. t.scheduled) kept ∙ ap (λ d. d ∷ s.scheduled) same,
      )

  -- A time that is no date passes the test that it is in the future: the change is accepted, and no
  -- run of the scheduler ever finds it due.
  pub create_scheduled-invalid :
      (route : Route) (comment : Option String) (time : String) (ins : FlagInstruction V)
      (instructions : List (FlagInstruction V)) (now later : ℕ) (s : Store V)
      → str_eq time "" ≡ false
      → time_of time ≡ none
      → (c : ScheduledChange V) × ((create_scheduled uuid iso time_of route comment
            (some time)
            (some (ins ∷ instructions))
            now
            s).1
          ≡ json c)
        × (c.status ≡ waiting)
        × (is_due uuid iso time_of later c ≡ false)
  unfolding create_scheduled
  create_scheduled-invalid route comment time ins instructions now later s filled invalid =
      rw (filled, invalid) (_, refl, refl, rw invalid refl)
