-- ===== src/Dashboard/Hooks/Users.antt =====
-- web/src/features/users/hooks/useUsers.ts
use flag_it.Common.{String, [], ◌∷◌}
use flag_it.Sdk.Json.{Json}
use flag_it.Dashboard.Endpoints.Users
use flag_it.Dashboard.Hooks.{Query, Mutation, query, mutation, invalidate}
use flag_it.Dashboard.Hooks.Keys

-- The variables of `useUpdateUser`.
pub record UserUpdate (N : Type 0) : Type 0 where
  pub id : String
  pub input : Json N

module _ {N : Type 0} where
  abbrev pub use_users : Query N
  use_users = query Keys.users Users.list

  abbrev pub use_create_user : Mutation (Json N) (Json N) N
  use_create_user = mutation (λ input. Users.create input) (λ _ _. invalidate (Keys.users) ∷ [])

  abbrev pub use_update_user : Mutation (UserUpdate N) (Json N) N
  use_update_user = mutation (λ v. Users.update v.id v.input) (λ _ _. invalidate (Keys.users) ∷ [])

  abbrev pub use_delete_user : Mutation String (Unit {0}) N
  use_delete_user = mutation (λ id. Users.remove id) (λ _ _. invalidate (Keys.users) ∷ [])
