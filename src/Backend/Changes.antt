-- ===== src/Backend/Changes.antt =====
-- The approval workflow of web/src/mocks/handlers.ts. `uuid` is `crypto.randomUUID`, and `iso` the
-- text of a time.
pub mod Review
pub mod Overlap
pub mod Waiting
use flag_it.Common.{
  ℕ, suc, Bool, true, false, Option, none, some, String, List, [], ◌∷◌, str_eq, if◌then◌else◌, ◌||◌,
  not, find, filterb, update_first,
}
use flag_it.Flags.{FlagInstruction, ChangeStatus, pending, approved, rejected, ChangeRequest}
use flag_it.Backend.Store.{Reply, json, failure, Route, Store, config_key, apply_at}

-- `mockUser`
abbrev pub mock_user_id : String
mock_user_id = "u1"

abbrev pub mock_user_email : String
mock_user_email = "admin@flag-it.dev"

abbrev pub or_empty : Option String → String
or_empty none = ""
or_empty (some s) = s

abbrev pub is_pending : ChangeStatus → Bool
is_pending pending = true
is_pending approved = false
is_pending rejected = false

abbrev pub status_text : ChangeStatus → String
status_text pending = "pending"
status_text approved = "approved"
status_text rejected = "rejected"

-- A query parameter that is absent or empty lets everything through.
abbrev pub matches : Option String → String → Bool
matches none s = true
matches (some q) s = str_eq q "" || str_eq s q

module _ {V : Type 0} where
  abbrev pub is_change : String → ChangeRequest V → Bool
  is_change x c = str_eq c.id x

  unfoldable pub list_changes : Option String → Store V → List (ChangeRequest V)
  list_changes status s = filterb (λ c. matches status (status_text c.status)) s.changes

  module _ (uuid iso : ℕ → String) where
    -- `POST …/changes` at the time `now`.
    unfoldable pub create_change :
        Route
        → Option String
        → Option (List (FlagInstruction V))
        → ℕ
        → Store V
        → Store V × Reply (ChangeRequest V)
    create_change route comment none now s = (s, failure 400 "at least one instruction is required")
    create_change route comment (some []) now s =
        (s, failure 400 "at least one instruction is required")
    create_change route comment (some (ins ∷ instructions)) now s =
        let c : ChangeRequest V = record {
          id = uuid s.issued;
          project_id = route.project_key;
          environment_id = route.env_key;
          environment_key = route.env_key;
          flag_key = route.flag_key;
          instructions = ins ∷ instructions;
          comment = or_empty comment;
          status = pending;
          requested_by = mock_user_id;
          requested_by_email = mock_user_email;
          reviewed_by = none;
          reviewed_by_email = none;
          review_comment = none;
          created_at = iso now;
          reviewed_at = none;
        } in
        (record s { changes = c ∷ s.changes; issued = suc s.issued }, json c)

    -- What a review writes into the change request.
    abbrev pub reviewed : ChangeStatus → Option String → ℕ → ChangeRequest V → ChangeRequest V
    reviewed status comment now c = record c {
      status = status;
      reviewed_by = some mock_user_id;
      reviewed_by_email = some mock_user_email;
      review_comment = some (or_empty comment);
      reviewed_at = some (iso now);
    }

    -- `approve` from where it has read the body of the request: the change request was found and
    -- waited for review before that.
    unfoldable pub finish_approval :
        ChangeRequest V → String → Option String → ℕ → Store V → Store V × Reply (ChangeRequest V)
    unfolding apply_at
    finish_approval c x comment now s = (
      record (apply_at uuid (config_key c.flag_key c.environment_key) c.instructions s) {
        changes = update_first (is_change x) (reviewed approved comment now) s.changes;
      },
      json (reviewed approved comment now c),
    )

    unfoldable pub approve_found :
        Option (ChangeRequest V)
        → String
        → Option String
        → ℕ
        → Store V
        → Store V × Reply (ChangeRequest V)
    unfolding finish_approval
    approve_found none x comment now s = (s, failure 404 "not found")
    approve_found (some c) x comment now s =
        if is_pending c.status
        then finish_approval c x comment now s
        else (s, failure 409 "not pending")

    -- `POST …/changes/:changeId/approve`
    unfoldable pub approve :
        String → Option String → ℕ → Store V → Store V × Reply (ChangeRequest V)
    unfolding approve_found
    approve x comment now s = approve_found (find (is_change x) s.changes) x comment now s

    -- `reject` from where it has read the body of the request.
    unfoldable pub finish_rejection :
        ChangeRequest V → String → Option String → ℕ → Store V → Store V × Reply (ChangeRequest V)
    finish_rejection c x comment now s = (
      record s { changes = update_first (is_change x) (reviewed rejected comment now) s.changes },
      json (reviewed rejected comment now c),
    )

    unfoldable pub reject_found :
        Option (ChangeRequest V)
        → String
        → Option String
        → ℕ
        → Store V
        → Store V × Reply (ChangeRequest V)
    unfolding finish_rejection
    reject_found none x comment now s = (s, failure 404 "not found")
    reject_found (some c) x comment now s =
        if is_pending c.status
        then finish_rejection c x comment now s
        else (s, failure 409 "not pending")

    -- `POST …/changes/:changeId/reject`
    unfoldable pub reject : String → Option String → ℕ → Store V → Store V × Reply (ChangeRequest V)
    unfolding reject_found
    reject x comment now s = reject_found (find (is_change x) s.changes) x comment now s
