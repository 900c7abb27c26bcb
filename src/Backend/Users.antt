-- ===== src/Backend/Users.antt =====
-- The users of web/src/mocks/handlers.ts. The handlers edit the objects that the array refers to, and
-- `resetUsers` builds a new array of the seed's objects, so objects are kept in a heap here and the
-- array is a list of references. `uuid` is `crypto.randomUUID`, and `iso` the text of a time.
pub mod Reset
use flag_it.Common.{
  ℕ, zero, suc, ◌+◌, Bool, true, false, Option, none, some, String, List, [], ◌∷◌, ◌++◌, not,
  str_eq, length, get_elem?, set, filterb, find,
}
use flag_it.Backend.Changes.{or_empty}

pub record User : Type 0 where
  pub id : String
  pub email : String
  pub full_name : String
  pub is_superuser : Bool
  pub is_active : Bool
  pub created_at : String
  pub updated_at : String

-- The user objects, the references in `mockUsers`, and the number of ids that were handed out.
pub record UserStore : Type 0 where
  pub heap : List User
  pub users : List ℕ
  pub issued : ℕ

abbrev pub add_object : Option User → List User → List User
add_object none us = us
add_object (some u) us = u ∷ us

-- The objects that the references are to.
unfoldable pub deref : List User → List ℕ → List User
deref heap [] = []
deref heap (a ∷ refs) = add_object (get_elem? heap a) (deref heap refs)

abbrev pub has_id : String → Option User → Bool
has_id x none = false
has_id x (some u) = str_eq u.id x

-- The references from `i` on, `n` of them.
unfoldable pub refs_from : ℕ → ℕ → List ℕ
refs_from i zero = []
refs_from i (suc n) = i ∷ refs_from (suc i) n

-- `resetUsers`, where the seed is the first `n` objects.
unfoldable pub reset_users : ℕ → UserStore → UserStore
unfolding refs_from
reset_users n s = record s { users = refs_from 0 n }

-- `GET …/users`
unfoldable pub list_users : UserStore → List User
unfolding deref
list_users s = deref s.heap s.users

abbrev pub or_false : Option Bool → Bool
or_false none = false
or_false (some b) = b

-- `POST …/users`
unfoldable pub post_user :
    (ℕ → String)
    → (ℕ → String)
    → String
    → Option String
    → Option Bool
    → ℕ
    → UserStore
    → UserStore × User
post_user uuid iso email full_name is_superuser now s =
    let u : User = record {
      id = uuid s.issued;
      email = email;
      full_name = or_empty full_name;
      is_superuser = or_false is_superuser;
      is_active = true;
      created_at = iso now;
      updated_at = iso now;
    } in
    (
      record {
        heap = s.heap ++ u ∷ [];
        users = s.users ++ length s.heap ∷ [];
        issued = suc s.issued;
      },
      u,
    )

unfoldable pub patch_object : ℕ → Option User → String → Bool → UserStore → UserStore × Option User
patch_object a none full_name is_active s = (s, none)
patch_object a (some u) full_name is_active s =
    let v : User = record u { full_name = full_name; is_active = is_active } in
    (record s { heap = set s.heap a v }, some v)

unfoldable pub patch_found : Option ℕ → String → Bool → UserStore → UserStore × Option User
unfolding patch_object
patch_found none full_name is_active s = (s, none)
patch_found (some a) full_name is_active s =
    patch_object a (get_elem? s.heap a) full_name is_active s

-- `PATCH …/users/:userID`; the reply `none` is the status 404.
unfoldable pub patch_user : String → String → Bool → UserStore → UserStore × Option User
unfolding patch_found
patch_user x full_name is_active s =
    patch_found (find (λ a. has_id x (get_elem? s.heap a)) s.users) full_name is_active s

-- `DELETE …/users/:userID`
unfoldable pub delete_user : String → UserStore → UserStore
delete_user x s = record s { users = filterb (λ a. not (has_id x (get_elem? s.heap a))) s.users }
