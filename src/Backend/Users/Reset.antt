-- ===== src/Backend/Users/Reset.antt =====
-- What a reset of the users restores, and what it does not.
use flag_it.Common.{
  ℕ, zero, suc, Bool, some, String, List, [], ◌∷◌, ◌≡◌, refl, sym, ap, ◌∙◌, get_elem?, set, take,
  find, ◌<◌, arith,
}
use mathlib.Core.Option.{none-ne-some}
use flag_it.Backend.Users.{
  User, UserStore, add_object, deref, has_id, refs_from, reset_users, list_users, patch_object,
  patch_found, patch_user,
}

-- A store with a further object in front refers to the others one later.
deref-later :
    (u : User) (heap : List User) (i n : ℕ)
    → deref (u ∷ heap) (refs_from (suc i) n) ≡ deref heap (refs_from i n)
unfolding deref refs_from
deref-later u heap i zero = refl
deref-later u heap i (suc n) = ap (add_object (get_elem? heap i)) (deref-later u heap (suc i) n)

deref-nil : (i n : ℕ) → deref [] (refs_from i n) ≡ []
unfolding deref refs_from
deref-nil i zero = refl
deref-nil i (suc n) = deref-nil (suc i) n

-- After a reset the first `n` objects are listed, as they are.
pub list-reset_users : (n : ℕ) (heap : List User) → deref heap (refs_from 0 n) ≡ take n heap
unfolding deref refs_from
list-reset_users zero heap = refl
list-reset_users (suc n) [] = deref-nil 1 n
list-reset_users (suc n) (u ∷ heap) =
    ap (λ us. u ∷ us) (deref-later u heap 0 n ∙ list-reset_users n heap)

take-set : (n : ℕ) (xs : List User) (a : ℕ) (v : User) → take n (set xs a v) ≡ set (take n xs) a v
take-set zero xs a v = refl
take-set (suc n) [] a v = refl
take-set (suc n) (x ∷ xs) zero v = refl
take-set (suc n) (x ∷ xs) (suc a) v = ap (λ us. x ∷ us) (take-set n xs a v)

get_elem?-take_set :
    (n : ℕ) (xs : List User) (a : ℕ) (u v : User)
    → a < n
    → get_elem? xs a ≡ some u
    → get_elem? (take n (set xs a v)) a ≡ some v
get_elem?-take_set zero xs a u v below object = absurd (omega (arith, below))
get_elem?-take_set (suc n) [] a u v below object = absurd (none-ne-some u object)
get_elem?-take_set (suc n) (x ∷ xs) zero u v below object = refl
get_elem?-take_set (suc n) (x ∷ xs) (suc a) u v below object =
    get_elem?-take_set n xs a u v (omega (arith, below)) object

-- An edit of a listed user of the seed survives a reset: the reset lists the objects of the seed, of
-- which this is one, and the edit has changed the object in place.
pub list-reset-patch :
    (n : ℕ) (x full_name : String) (is_active : Bool) (s : UserStore) (a : ℕ) (u : User)
    → a < n
    → find (λ r. has_id x (get_elem? s.heap r)) s.users ≡ some a
    → get_elem? s.heap a ≡ some u
    → let edited = record u { full_name = full_name; is_active = is_active } in
      let listed = list_users (reset_users n (patch_user x full_name is_active s).0) in
      (listed ≡ set (list_users (reset_users n s)) a edited) × (get_elem? listed a ≡ some edited)
unfolding list_users reset_users patch_user patch_found patch_object
list-reset-patch n x full_name is_active s a u below found object =
    let edited = record u { full_name = full_name; is_active = is_active } in
    rw (found, object)
      (
        list-reset_users n (set s.heap a edited)
            ∙ take-set n s.heap a edited
            ∙ ap (λ us. set us a edited) (sym (list-reset_users n s.heap)),
        ap (λ us. get_elem? us a) (list-reset_users n (set s.heap a edited))
            ∙ get_elem?-take_set n s.heap a u edited below object,
      )
