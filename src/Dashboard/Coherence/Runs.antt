-- ===== src/Dashboard/Coherence/Runs.antt =====
-- The cache and the server together: over any sequence of fetches and of mutations, what the
-- dashboard shows is what the server would answer, or is marked for a new fetch.
use flag_it.Common.{◌≡◌, ◌⊎◌, List, [], ◌∷◌}
use flag_it.Sdk.Json.{Json}
use flag_it.Dashboard.Api.{Web}
use flag_it.Dashboard.Coherence.{View, Event, key_of, effects}
use flag_it.Dashboard.Coherence.Resources.{Resource, Reads, Writes}
use flag_it.Dashboard.Coherence.Misses.{Misses}
use flag_it.Dashboard.Coherence.Client.{QueryClient, IsGood, AreSettingGood, perform_all}
use flag_it.Dashboard.Coherence.Names.{IsNamed}

-- The server, a parameter: its answers to the queries, the mutations that it lets succeed with the
-- given result, and the state that these leave.
pub record Server (N : Type 0) : Type 1 where
  pub State : Type 0
  pub answer : State → View → Json N
  pub Possible : State → Event N → Type 0
  pub apply : State → Event N → State

-- A mutation changes the answers that read what it writes, and no other. Data that a mutation
-- returns for a view is what the server answers to that view afterwards.
pub record IsServer {N : Type 0} (web : Web) (S : Server N) : Type 0 where
  pub unaffected :
      (s : S.State) (e : Event N) (v : View)
      → (S.answer (S.apply s e) v ≡ S.answer s v) ⊎ ((r : Resource) × (Writes e r × Reads v r))
  pub returned :
      (s : S.State) (e : Event N) (v : View)
      → S.Possible s e
      → IsNamed v
      → AreSettingGood (λ x. x ≡ S.answer (S.apply s e) v) (effects e) (key_of N web v)

-- A fetch of a view that comes back, or a mutation that succeeds.
pub data Action (N : Type 0) : Type 0 where
  fetch : View → Action N
  succeed : Event N → Action N

module _ {N : Type 0} (web : Web) (S : Server N) (C : QueryClient N) where
  pub record World : Type 0 where
    pub server : S.State
    pub cache : C.State

  abbrev pub act : Action N → World → World
  act (fetch v) w = record w {
    cache = C.set_query_data w.cache (key_of N web v) (S.answer w.server v);
  }
  act (succeed e) w = record {
    server = S.apply w.server e;
    cache = perform_all C (effects e) w.cache;
  }

  unfoldable pub run : List (Action N) → World → World
  run [] w = w
  run (a ∷ actions) w = run actions (act a w)

  -- What is shown for a view is the server's answer, or is marked for a new fetch.
  abbrev pub IsCoherent : View → World → Type 0
  IsCoherent v w = IsGood (λ x. x ≡ S.answer w.server v) (C.entry w.cache (key_of N web v))

  -- Every fetch is of a view with a name of its own; every mutation is possible, and is none of those
  -- that are known to miss the view.
  abbrev pub IsFair : View → World → List (Action N) → Type 0
  IsFair v w [] = Unit
  IsFair v w (fetch u ∷ actions) = IsNamed u × IsFair v (act (fetch u) w) actions
  IsFair v w (succeed e ∷ actions) =
      S.Possible w.server e × ((¬ Misses e v) × IsFair v (act (succeed e) w) actions)
