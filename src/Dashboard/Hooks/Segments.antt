-- ===== src/Dashboard/Hooks/Segments.antt =====
-- web/src/features/segments/hooks/useSegments.ts
use flag_it.Common.{Option, String, List, [], ◌∷◌, ◌++◌}
use flag_it.Sdk.Json.{Json, str, arr, nil}
use flag_it.Dashboard.Api.{Web, or_blank, object}
use flag_it.Dashboard.Endpoints.Segments
use flag_it.Dashboard.Hooks.{Query, Mutation, query, mutation, invalidate, set_data}
use flag_it.Dashboard.Hooks.Keys

pub record CreateSegmentInput : Type 0 where
  pub key : String
  pub name : String
  pub description : Option String

module _ {N : Type 0} where
  abbrev pub use_segments : Web → String → String → String → Query N
  use_segments web o p search =
      query (Keys.segments o p ++ search ∷ []) (Segments.list web o p search)

  abbrev pub use_segment : String → String → String → Query N
  use_segment o p segment = query (Keys.segment o p segment) (Segments.get_one o p segment)

  abbrev pub empty_definition : List (String × Json N)
  empty_definition =
      ("included", arr nil)
      ∷ ("excluded", arr nil)
      ∷ ("included_contexts", arr nil)
      ∷ ("excluded_contexts", arr nil)
      ∷ ("rules", arr nil)
      ∷ []

  -- The body of a new segment; `emptyDefinition` has neither of the first two names.
  abbrev pub new_segment : CreateSegmentInput → Json N
  new_segment input = object (
      ("name", str input.name)
      ∷ ("description", str (or_blank input.description))
      ∷ empty_definition)

  abbrev pub use_create_segment : String → String → Mutation CreateSegmentInput (Json N) N
  use_create_segment o p =
      mutation (λ input. Segments.save o p input.key (new_segment input))
        (λ _ _. invalidate (Keys.segments o p) ∷ [])

  abbrev pub use_save_segment : String → String → String → Mutation (Json N) (Json N) N
  use_save_segment o p segment =
      mutation (λ body. Segments.save o p segment body)
        (λ saved _. set_data (Keys.segment o p segment) saved ∷ invalidate (Keys.segments o p) ∷ [])

  abbrev pub use_delete_segment : String → String → Mutation String (Unit {0}) N
  use_delete_segment o p =
      mutation (λ segment. Segments.remove o p segment) (λ _ _. invalidate (Keys.segments o p) ∷ [])
