-- ===== src/Backend/Changes/Review.antt =====
-- Reviews of change requests, one after the other.
use flag_it.Common.{
  ℕ, false, Option, some, String, ◌≡◌, refl, find, find-update_first, find-passes, update_first,
}
use flag_it.Flags.{pending, approved, rejected, ChangeRequest}
use flag_it.Backend.Store.{json, failure, Store, config_key, apply_at}
use flag_it.Backend.Changes.{
  is_pending, is_change, reviewed, approve_found, approve, reject_found, reject,
}

module _ {V : Type 0} (uuid iso : ℕ → String) where
  -- A second review of a change request that is decided is refused.
  refused :
      (x : String) (comment : Option String) (now : ℕ) (c : ChangeRequest V) (s : Store V)
      → find (is_change x) s.changes ≡ some c
      → is_pending c.status ≡ false
      → (approve uuid iso x comment now s ≡ (s, failure 409 "not pending"))
        × (reject uuid iso x comment now s ≡ (s, failure 409 "not pending"))
  unfolding approve approve_found reject reject_found
  refused x comment now c s found decided = (rw (found, decided) refl, rw (found, decided) refl)

  module _ (x : String) (comment : Option String) (now : ℕ) (again : Option String) (later : ℕ)
      (c : ChangeRequest V) (s : Store V) where
    approve_pending :
        find (is_change x) s.changes ≡ some c
        → c.status ≡ pending
        → approve uuid iso x comment now s ≡ (
          record (apply_at uuid (config_key c.flag_key c.environment_key) c.instructions s) {
            changes = update_first (is_change x) (reviewed uuid iso approved comment now) s.changes;
          },
          json (reviewed uuid iso approved comment now c),
        )
    unfolding approve approve_found
    approve_pending found waits = rw (found, waits) refl

    reject_pending :
        find (is_change x) s.changes ≡ some c
        → c.status ≡ pending
        → reject uuid iso x comment now s ≡ (
          record s {
            changes = update_first (is_change x) (reviewed uuid iso rejected comment now) s.changes;
          },
          json (reviewed uuid iso rejected comment now c),
        )
    unfolding reject reject_found
    reject_pending found waits = rw (found, waits) refl

    -- Once a change request that waits for review is approved, neither a second approval nor a
    -- rejection does anything: its instructions are applied at most once.
    pub approve-refused_after :
        find (is_change x) s.changes ≡ some c
        → c.status ≡ pending
        → (approve uuid iso x again later (approve uuid iso x comment now s).0
            ≡ ((approve uuid iso x comment now s).0, failure 409 "not pending"))
          × (reject uuid iso x again later (approve uuid iso x comment now s).0
              ≡ ((approve uuid iso x comment now s).0, failure 409 "not pending"))
    approve-refused_after found waits = rw (approve_pending found waits) (
        refused x again later (reviewed uuid iso approved comment now c)
          (record (apply_at uuid (config_key c.flag_key c.environment_key) c.instructions s) {
            changes = update_first (is_change x) (reviewed uuid iso approved comment now) s.changes;
          })
          (find-update_first (is_change x) (reviewed uuid iso approved comment now) s.changes c
            found (find-passes (is_change x) s.changes c found))
          refl)

    -- Once a change request that waits for review is rejected, neither a second rejection nor an
    -- approval does anything: its instructions are never applied.
    pub reject-refused_after :
        find (is_change x) s.changes ≡ some c
        → c.status ≡ pending
        → (approve uuid iso x again later (reject uuid iso x comment now s).0
            ≡ ((reject uuid iso x comment now s).0, failure 409 "not pending"))
          × (reject uuid iso x again later (reject uuid iso x comment now s).0
              ≡ ((reject uuid iso x comment now s).0, failure 409 "not pending"))
    reject-refused_after found waits = rw (reject_pending found waits) (
        refused x again later (reviewed uuid iso rejected comment now c)
          (record s {
            changes = update_first (is_change x) (reviewed uuid iso rejected comment now) s.changes;
          })
          (find-update_first (is_change x) (reviewed uuid iso rejected comment now) s.changes c
            found (find-passes (is_change x) s.changes c found))
          refl)
