-- ===== src/Backend/Changes/Waiting.antt =====
-- Reviews that wait for the body of their request. `approve` and `reject` find the change request and
-- test its status, then wait, and edit only then: other calls may be served in between.
use flag_it.Common.{ℕ, Option, none, some, String, List, ◌∷◌, find, if◌then◌else◌}
use flag_it.Flags.{ChangeRequest}
use flag_it.Backend.Store.{Reply, Store}
use flag_it.Backend.Changes.{is_pending, is_change, finish_approval, finish_rejection}

-- An approval or a rejection of the change request of an id, which the handler has found.
pub data Waiting (V : Type 0) : Type 0 where
  approving : String → ChangeRequest V → Waiting V
  rejecting : String → ChangeRequest V → Waiting V

-- The backend, with the reviews that wait.
pub record BackendState (V : Type 0) : Type 0 where
  pub store : Store V
  pub reviews : List (Waiting V)

module _ {V : Type 0} where
  -- The id in the route of a review.
  abbrev pub change_of : Waiting V → String
  change_of (approving x c) = x
  change_of (rejecting x c) = x

  -- `approve` and `reject` up to where they wait: with the status 404 or 409 they are done.
  unfoldable pub wait_if_pending :
      (String → ChangeRequest V → Waiting V)
      → String
      → Option (ChangeRequest V)
      → List (Waiting V)
      → List (Waiting V)
  wait_if_pending kind x none reviews = reviews
  wait_if_pending kind x (some c) reviews =
      if is_pending c.status then kind x c ∷ reviews else reviews

  unfoldable pub start_approval : String → BackendState V → BackendState V
  unfolding wait_if_pending
  start_approval x w = record w {
    reviews = wait_if_pending approving x (find (is_change x) w.store.changes) w.reviews;
  }

  unfoldable pub start_rejection : String → BackendState V → BackendState V
  unfolding wait_if_pending
  start_rejection x w = record w {
    reviews = wait_if_pending rejecting x (find (is_change x) w.store.changes) w.reviews;
  }

  -- A review goes on with the comment in the body that it has read.
  abbrev pub finish :
      (ℕ → String)
      → (ℕ → String)
      → Waiting V
      → Option String
      → ℕ
      → Store V
      → Store V × Reply (ChangeRequest V)
  finish uuid iso (approving x c) comment now s = finish_approval uuid iso c x comment now s
  finish uuid iso (rejecting x c) comment now s = finish_rejection uuid iso c x comment now s
