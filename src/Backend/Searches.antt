-- ===== src/Backend/Searches.antt =====
-- The lists of web/src/mocks/handlers.ts that are searched, and the page of a context. `lower` is
-- `toLowerCase` and `decode` is `decodeURIComponent`; `mockContexts` is an argument.
use flag_it.Common.{ℕ, Option, none, some, String, List, [], ◌∷◌, map, str_eq, ◌&&◌, find, filterb}
use flag_it.Flags.{Flag, Segment}
use flag_it.Backend.Flags.{FlagStore, includes_any, search_param}
use flag_it.Backend.Segments.{SegmentStore}
use flag_it.Backend.Directory.{Directory, Environment}

pub record SeenContext (V : Type 0) : Type 0 where
  pub id : String
  pub environment_id : String
  pub kind : String
  pub key : String
  pub attributes : List (String × V)
  pub first_seen : String
  pub last_seen : String

-- The value is none where the flag has no variation.
pub record ContextEvaluation (V : Type 0) : Type 0 where
  pub flag_key : String
  pub variation : ℕ
  pub value : Option V
  pub reason : String

pub record ContextDetail (V : Type 0) : Type 0 where
  pub context : SeenContext V
  pub evaluations : List (ContextEvaluation V)

-- `GET …/environments`
unfoldable pub list_environments : (String → String) → Option String → Directory → List Environment
unfolding includes_any
list_environments lower search_text d =
    filterb (λ e. includes_any lower (search_param lower search_text) (e.key ∷ e.name ∷ []))
      d.environments

module _ {V : Type 0} where
  -- `GET …/segments`
  unfoldable pub list_segments :
      (String → String) → Option String → SegmentStore V → List (Segment V)
  unfolding includes_any
  list_segments lower search_text store =
      filterb
        (λ s.
          includes_any lower (search_param lower search_text) (s.key ∷ s.name ∷ s.description ∷ []))
        store.segments

  -- `GET …/contexts`
  unfoldable pub list_contexts :
      (String → String) → Option String → List (SeenContext V) → List (SeenContext V)
  unfolding includes_any
  list_contexts lower search_text contexts =
      filterb (λ c. includes_any lower (search_param lower search_text) (c.kind ∷ c.key ∷ []))
        contexts

  -- `f.variations[0]`
  abbrev pub first_variation : List V → Option V
  first_variation [] = none
  first_variation (v ∷ vs) = some v

  abbrev pub evaluation_of : Flag V → ContextEvaluation V
  evaluation_of f = record {
    flag_key = f.key;
    variation = 0;
    value = first_variation f.variations;
    reason = "FALLTHROUGH";
  }

  abbrev pub detail_of : FlagStore V → Option (SeenContext V) → Option (ContextDetail V)
  detail_of store none = none
  detail_of store (some c) =
      some (record { context = c; evaluations = map evaluation_of store.flags })

  -- `GET …/contexts/:kind/:key`, `none` for the status 404.
  unfoldable pub get_context :
      (String → String)
      → String
      → String
      → FlagStore V
      → List (SeenContext V)
      → Option (ContextDetail V)
  get_context decode kind key store contexts =
      detail_of store (find (λ c. str_eq c.kind kind && str_eq c.key (decode key)) contexts)
