-- ===== src/Backend/Steps/Configs.antt =====
-- Every configuration that a run of the backend stores is well formed.
use flag_it.Common.{
  ℕ, suc, ◌≤◌, Option, none, some, String, List, [], ◌∷◌, ◌≡◌, arith, All, str_eq, Bool-cases, inl,
  inr, ◌||◌, find,
}
use flag_it.Flags.{FlagConfig, FlagInstruction, ScheduledChange}
use flag_it.Backend.Instructions.{Applied, apply_instructions}
use flag_it.Backend.Instructions.Keep.{
  IsConfig, apply_instructions-IsConfig, issued-apply_instructions, IsConfig-later,
  new_config-IsConfig,
}
use flag_it.Backend.Store.{
  Route, Store, lookup, put, or_new, config_at, config_key, apply_at, get_config, patch_config,
}
use flag_it.Backend.Changes.{or_empty, create_change, finish_approval, finish_rejection}
use flag_it.Backend.Changes.Waiting.{
  Waiting, approving, rejecting, BackendState, start_approval, start_rejection, finish,
}
use flag_it.Backend.Scheduled.{
  is_due, is_waiting, has_passed, run_list, run_due, list_scheduled, create_scheduled, cancel_found,
  cancel, is_scheduled,
}
use flag_it.Backend.Steps.{
  Step, gets, patches, proposes, starts_approval, starts_rejection, finishes, lists, schedules,
  cancels, Steps, stay, go_on,
}

module _ {V : Type 0} (uuid : ℕ → String) where
  -- Every stored configuration is well formed, with rule ids that were handed out.
  abbrev pub HasConfigs : ℕ → List (String × FlagConfig V) → Type 0
  HasConfigs n configs = All (λ e. IsConfig uuid (record { config = e.1; issued = n })) configs

  HasConfigs-later :
      (n m : ℕ) (configs : List (String × FlagConfig V))
      → n ≤ m
      → HasConfigs n configs
      → HasConfigs m configs
  HasConfigs-later n m [] le h = h
  HasConfigs-later n m (e ∷ configs) le h =
      (IsConfig-later uuid e.1 n m le h.0, HasConfigs-later n m configs le h.1)

  lookup-IsConfig :
      (n : ℕ) (k : String) (configs : List (String × FlagConfig V))
      → HasConfigs n configs
      → IsConfig uuid (record { config = or_new (lookup k configs); issued = n })
  unfolding lookup
  lookup-IsConfig n k [] h = new_config-IsConfig uuid n
  lookup-IsConfig n k ((j, c) ∷ configs) h = elim (Bool-cases (str_eq j k)) [
    | inl same ↦ rw same h.0
    | inr other ↦ rw other (lookup-IsConfig n k configs h.1)
  ]

  put-HasConfigs :
      (n : ℕ) (k : String) (c : FlagConfig V) (configs : List (String × FlagConfig V))
      → IsConfig uuid (record { config = c; issued = n })
      → HasConfigs n configs
      → HasConfigs n (put k c configs)
  unfolding put
  put-HasConfigs n k c [] p h = (p, tt)
  put-HasConfigs n k c ((j, d) ∷ configs) p h = elim (Bool-cases (str_eq j k)) [
    | inl same ↦ rw same (p, h.1)
    | inr other ↦ rw other (h.0, put-HasConfigs n k c configs p h.1)
  ]

  abbrev pub IsStore : Store V → Type 0
  IsStore s = HasConfigs s.issued s.configs

  get_config-IsStore : (route : Route) (s : Store V) → IsStore s → IsStore (get_config route s).0
  unfolding get_config config_at
  get_config-IsStore route s h =
      put-HasConfigs s.issued (config_key route.flag_key route.env_key)
        (config_at (config_key route.flag_key route.env_key) s) s.configs
        (lookup-IsConfig s.issued (config_key route.flag_key route.env_key) s.configs h) h

  module _ (inj : (i j : ℕ) → uuid i ≡ uuid j → i ≡ j) where
    apply_at-IsStore :
        (k : String) (instructions : List (FlagInstruction V)) (s : Store V)
        → IsStore s
        → IsStore (apply_at uuid k instructions s)
    unfolding apply_at config_at
    apply_at-IsStore k instructions s h =
        let before : Applied V = record { config = config_at k s; issued = s.issued } in
        let after = apply_instructions uuid instructions before in
        put-HasConfigs after.issued k after.config s.configs
          (apply_instructions-IsConfig uuid instructions before inj
            (lookup-IsConfig s.issued k s.configs h))
          (HasConfigs-later s.issued after.issued s.configs
            (issued-apply_instructions uuid instructions before) h)

    module _ (iso : ℕ → String) (time_of : String → Option ℕ) where
      finish-IsStore :
          (r : Waiting V) (comment : Option String) (now : ℕ) (s : Store V)
          → IsStore s
          → IsStore (finish uuid iso r comment now s).0
      unfolding finish_approval finish_rejection
      finish-IsStore (approving x c) comment now s h =
          apply_at-IsStore (config_key c.flag_key c.environment_key) c.instructions s h
      finish-IsStore (rejecting x c) comment now s h = h

      create_change-IsStore :
          (route : Route) (comment : Option String) (body : Option (List (FlagInstruction V)))
          (now : ℕ) (s : Store V)
          → IsStore s
          → IsStore (create_change uuid iso route comment body now s).0
      unfolding create_change
      create_change-IsStore route comment none now s h = h
      create_change-IsStore route comment (some []) now s h = h
      create_change-IsStore route comment (some (ins ∷ instructions)) now s h =
          HasConfigs-later s.issued (suc s.issued) s.configs (omega arith) h

      run_list-IsStore :
          (now : ℕ) (cs : List (ScheduledChange V)) (s : Store V)
          → IsStore s
          → IsStore (run_list uuid iso time_of now cs s).0
      unfolding run_list
      run_list-IsStore now [] s h = h
      run_list-IsStore now (c ∷ cs) s h = elim (Bool-cases (is_due uuid iso time_of now c)) [
        | inl due ↦ rw due (
            run_list-IsStore now cs _
              (apply_at-IsStore (config_key c.flag_key c.environment_key) c.instructions s h))
        | inr not_due ↦ rw not_due (run_list-IsStore now cs s h)
      ]

      create_scheduled-IsStore :
          (route : Route) (comment time : Option String) (body : Option (List (FlagInstruction V)))
          (now : ℕ) (s : Store V)
          → IsStore s
          → IsStore (create_scheduled uuid iso time_of route comment time body now s).0
      unfolding create_scheduled
      create_scheduled-IsStore route comment time none now s h = h
      create_scheduled-IsStore route comment time (some []) now s h = h
      create_scheduled-IsStore route comment time (some (ins ∷ instructions)) now s h =
          elim (Bool-cases
            (str_eq (or_empty time) "" || has_passed (time_of (or_empty time)) now)) [
              | inl bad ↦ rw bad h
              | inr good ↦
                  rw good (HasConfigs-later s.issued (suc s.issued) s.configs (omega arith) h)
            ]

      cancel_found-IsStore :
          (o : Option (ScheduledChange V)) (x : String) (s : Store V)
          → IsStore s
          → IsStore (cancel_found uuid iso time_of o x s).0
      unfolding cancel_found
      cancel_found-IsStore none x s h = h
      cancel_found-IsStore (some c) x s h = elim (Bool-cases (is_waiting c.status)) [
        | inl waits ↦ rw waits h
        | inr settled ↦ rw settled h
      ]

      Step-IsStore :
          {u v : BackendState V} → Step uuid iso time_of u v → IsStore u.store → IsStore v.store
      unfolding patch_config start_approval start_rejection cancel list_scheduled run_due
      Step-IsStore (gets route w) h = get_config-IsStore route w.store h
      Step-IsStore (patches route instructions w) h =
          apply_at-IsStore (config_key route.flag_key route.env_key) instructions w.store h
      Step-IsStore (proposes route comment body now w) h =
          create_change-IsStore route comment body now w.store h
      Step-IsStore (starts_approval x w) h = h
      Step-IsStore (starts_rejection x w) h = h
      Step-IsStore (finishes before r after comment now s) h = finish-IsStore r comment now s h
      Step-IsStore (lists status flag env now w) h =
          run_list-IsStore now w.store.scheduled w.store h
      Step-IsStore (schedules route comment time body now w) h =
          create_scheduled-IsStore route comment time body now w.store h
      Step-IsStore (cancels x w) h =
          cancel_found-IsStore (find (is_scheduled uuid iso time_of x) w.store.scheduled) x w.store
            h

      -- Whatever calls the backend serves, every configuration that it stores is well formed, if
      -- those at first are and no id is handed out twice: no two targets of one variation and one
      -- context kind, no key twice in a target, and no two rules of one id.
      pub Steps-IsStore :
          {u v : BackendState V} → Steps uuid iso time_of u v → IsStore u.store → IsStore v.store
      Steps-IsStore (stay w) h = h
      Steps-IsStore (go_on u v w step steps) h = Steps-IsStore steps (Step-IsStore step h)
