-- ===== src/Dashboard/Hooks/Changes.antt =====
-- web/src/features/approvals/hooks/useChanges.ts
use flag_it.Common.{Option, none, some, String, [], ◌∷◌, ◌++◌}
use flag_it.Sdk.Json.{Json}
use flag_it.Dashboard.Api.{Call}
use flag_it.Dashboard.Endpoints.Changes
use flag_it.Dashboard.Hooks.{Query, Mutation, query, mutation, invalidate}
use flag_it.Dashboard.Hooks.Keys

pub data Action : Type 0 where
  approve : Action
  reject : Action

pub record Review : Type 0 where
  pub id : String
  pub action : Action
  pub comment : Option String

-- `status ?? 'all'`
abbrev pub or_all : Option String → String
or_all none = "all"
or_all (some status) = status

module _ {N : Type 0} where
  abbrev pub use_changes : String → String → Option String → Query N
  use_changes o p status = query (Keys.changes o p ++ or_all status ∷ []) (Changes.list o p status)

  abbrev pub use_create_change : String → String → String → String → Mutation (Json N) (Json N) N
  use_create_change o p flag env =
      mutation (λ input. Changes.create o p flag env input)
        (λ _ _. invalidate (Keys.changes o p) ∷ [])

  abbrev pub review_call : String → String → Review → Call N
  review_call o p review = elim review.action [
    | approve ↦ Changes.approve o p review.id review.comment
    | reject ↦ Changes.reject o p review.id review.comment
  ]

  abbrev pub use_review_change : String → String → Mutation Review (Json N) N
  use_review_change o p =
      mutation (λ review. review_call o p review)
        (λ _ _. invalidate (Keys.changes o p) ∷ invalidate ("flags" ∷ o ∷ p ∷ []) ∷ [])
