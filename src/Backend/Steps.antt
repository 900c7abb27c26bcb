-- ===== src/Backend/Steps.antt =====
-- The runs of the backend: sequences of the calls that read and edit flag configurations, in any order
-- and, where a handler waits for the body of its request between a test and its edits, in pieces with
-- other calls between them.
pub mod Configs
pub mod Holds
pub mod Decided
use flag_it.Common.{ℕ, Option, String, List, [], ◌∷◌, ◌++◌}
use flag_it.Flags.{FlagInstruction}
use flag_it.Backend.Store.{Route, Store, get_config, patch_config}
use flag_it.Backend.Changes.{create_change}
use flag_it.Backend.Changes.Waiting.{Waiting, BackendState, start_approval, start_rejection, finish}
use flag_it.Backend.Scheduled.{list_scheduled, create_scheduled, cancel}

-- `resetBackend`, of this part of the backend.
abbrev pub empty_store : {V : Type 0} → Store V
empty_store = record { configs = []; changes = []; scheduled = []; issued = 0 }

module _ {V : Type 0} (uuid iso : ℕ → String) (time_of : String → Option ℕ) where
  -- What is served without a wait: a call, or what is left of it once its body was read. A patch that
  -- waits has looked up its configuration before, as `gets` does, and edits it afterwards.
  pub data Step : BackendState V → BackendState V → Type 0 where
    gets :
        (route : Route) (w : BackendState V)
        → Step w (record w { store = (get_config route w.store).0 })
    patches :
        (route : Route) (instructions : List (FlagInstruction V)) (w : BackendState V)
        → Step w (record w { store = (patch_config uuid route instructions w.store).0 })
    proposes :
        (route : Route) (comment : Option String) (body : Option (List (FlagInstruction V)))
        (now : ℕ) (w : BackendState V)
        → Step w (record w { store = (create_change uuid iso route comment body now w.store).0 })
    starts_approval : (x : String) (w : BackendState V) → Step w (start_approval x w)
    starts_rejection : (x : String) (w : BackendState V) → Step w (start_rejection x w)
    finishes :
        (before : List (Waiting V)) (r : Waiting V) (after : List (Waiting V))
        (comment : Option String) (now : ℕ) (s : Store V)
        → Step
            (record { store = s; reviews = before ++ r ∷ after })
            (record { store = (finish uuid iso r comment now s).0; reviews = before ++ after })
    lists :
        (status flag env : Option String) (now : ℕ) (w : BackendState V)
        → Step w
            (record w { store = (list_scheduled uuid iso time_of status flag env now w.store).0 })
    schedules :
        (route : Route) (comment time : Option String) (body : Option (List (FlagInstruction V)))
        (now : ℕ) (w : BackendState V)
        → Step w (record w {
          store = (create_scheduled uuid iso time_of route comment time body now w.store).0;
        })
    cancels :
        (x : String) (w : BackendState V)
        → Step w (record w { store = (cancel uuid iso time_of x w.store).0 })

  pub data Steps : BackendState V → BackendState V → Type 0 where
    stay : (w : BackendState V) → Steps w w
    go_on : (u v w : BackendState V) → Step u v → Steps v w → Steps u w
