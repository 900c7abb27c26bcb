-- ===== src/Backend/Steps/Holds.antt =====
-- What the calls that leave the change requests alone leave of them.
use flag_it.Common.{
  ℕ, ◌≤◌, ◌<◌, Option, none, some, String, List, [], ◌∷◌, ◌≡◌, refl, arith, All, str_eq, Bool-cases,
  inl, inr, ◌||◌, find,
}
use flag_it.Flags.{FlagInstruction, ChangeRequest, ScheduledChange}
use flag_it.Backend.Instructions.Keep.{issued-apply_instructions}
use flag_it.Backend.Store.{Route, Store, config_at, config_key, apply_at}
use flag_it.Backend.Changes.{is_change, or_empty}
use flag_it.Backend.Scheduled.{
  is_due, is_waiting, has_passed, run_list, create_scheduled, cancel_found,
}

module _ {V : Type 0} (uuid : ℕ → String) where
  -- The id of the change request was handed out.
  abbrev pub IsIssued : ℕ → ChangeRequest V → Type 0
  IsIssued n c = (i : ℕ) × (i < n) × (c.id ≡ uuid i)

  pub IsIssued-later :
      (n m : ℕ) (cs : List (ChangeRequest V)) → n ≤ m → All (IsIssued n) cs → All (IsIssued m) cs
  IsIssued-later n m [] le h = h
  IsIssued-later n m (c ∷ cs) le h =
      ((h.0.0, omega (arith, le, h.0.1), h.0.2), IsIssued-later n m cs le h.1)

  -- The ids of the change requests were handed out, and the one of id `x` is `c`.
  pub record Holds (x : String) (c : ChangeRequest V) (s : Store V) : Type 0 where
    pub ids : All (IsIssued s.issued) s.changes
    pub found : find (is_change x) s.changes ≡ some c

  module _ (x : String) (c : ChangeRequest V) where
    -- Calls that leave the change requests alone.
    pub leave :
        (s t : Store V) → t.changes ≡ s.changes → s.issued ≤ t.issued → Holds x c s → Holds x c t
    leave s t same le h = record {
      ids = rw same (IsIssued-later s.issued t.issued s.changes le h.ids);
      found = rw same h.found;
    }

    pub apply_at_later :
        (k : String) (instructions : List (FlagInstruction V)) (s : Store V)
        → s.issued ≤ (apply_at uuid k instructions s).issued
    unfolding apply_at
    apply_at_later k instructions s =
        issued-apply_instructions uuid instructions
          (record { config = config_at k s; issued = s.issued })

    pub apply_at-Holds :
        (k : String) (instructions : List (FlagInstruction V)) (s : Store V)
        → Holds x c s
        → Holds x c (apply_at uuid k instructions s)
    unfolding apply_at
    apply_at-Holds k instructions s h =
        leave s (apply_at uuid k instructions s) refl (apply_at_later k instructions s) h

    module _ (iso : ℕ → String) (time_of : String → Option ℕ) where
      pub run_list-Holds :
          (now : ℕ) (cs : List (ScheduledChange V)) (s : Store V)
          → Holds x c s
          → Holds x c (run_list uuid iso time_of now cs s).0
      unfolding run_list
      run_list-Holds now [] s h = h
      run_list-Holds now (d ∷ cs) s h = elim (Bool-cases (is_due uuid iso time_of now d)) [
        | inl due ↦ rw due (
            run_list-Holds now cs _
              (apply_at-Holds (config_key d.flag_key d.environment_key) d.instructions s h))
        | inr not_due ↦ rw not_due (run_list-Holds now cs s h)
      ]

      pub create_scheduled-Holds :
          (route : Route) (comment time : Option String) (body : Option (List (FlagInstruction V)))
          (now : ℕ) (s : Store V)
          → Holds x c s
          → Holds x c (create_scheduled uuid iso time_of route comment time body now s).0
      unfolding create_scheduled
      create_scheduled-Holds route comment time none now s h = h
      create_scheduled-Holds route comment time (some []) now s h = h
      create_scheduled-Holds route comment time (some (ins ∷ instructions)) now s h =
          elim (Bool-cases
            (str_eq (or_empty time) "" || has_passed (time_of (or_empty time)) now)) [
              | inl bad ↦ rw bad h
              | inr good ↦ rw good (leave s _ refl (omega arith) h)
            ]

      pub cancel_found-Holds :
          (o : Option (ScheduledChange V)) (y : String) (s : Store V)
          → Holds x c s
          → Holds x c (cancel_found uuid iso time_of o y s).0
      unfolding cancel_found
      cancel_found-Holds none y s h = h
      cancel_found-Holds (some d) y s h = elim (Bool-cases (is_waiting d.status)) [
        | inl waits ↦ rw waits (leave s _ refl (omega arith) h)
        | inr settled ↦ rw settled h
      ]
