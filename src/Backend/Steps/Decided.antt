-- ===== src/Backend/Steps/Decided.antt =====
-- A change request that was decided stays as it is, whatever the backend serves and however reviews
-- overlap.
use flag_it.Common.{
  ℕ, suc, ◌<◌, false, Option, none, some, String, List, [], ◌∷◌, ◌≡◌, refl, sym, ap, ◌∙◌, arith,
  All, All-find, All-update_first, All-append, All-split, str_eq, eq_iff, Bool-cases, Option-cases,
  inl, inr, find, find-passes, find-later, find-update_other, update_first,
}
use flag_it.Flags.{FlagInstruction, ChangeStatus, approved, rejected, ChangeRequest}
use flag_it.Backend.Store.{Route, Store, config_key, get_config, patch_config}
use flag_it.Backend.Changes.{
  is_pending, is_change, reviewed, create_change, finish_approval, finish_rejection,
}
use flag_it.Backend.Changes.Waiting.{
  Waiting, approving, rejecting, BackendState, change_of, wait_if_pending, start_approval,
  start_rejection, finish,
}
use flag_it.Backend.Scheduled.{run_due, list_scheduled, cancel, is_scheduled}
use flag_it.Backend.Steps.Holds.{
  IsIssued, IsIssued-later, Holds, leave, apply_at_later, apply_at-Holds, run_list-Holds,
  create_scheduled-Holds, cancel_found-Holds,
}
use flag_it.Common.{str_eq-other}
use flag_it.Backend.Steps.{
  Step, gets, patches, proposes, starts_approval, starts_rejection, finishes, lists, schedules,
  cancels, Steps, stay, go_on,
}

fresh_differs :
    {uuid : ℕ → String}
    → ((i j : ℕ) → uuid i ≡ uuid j → i ≡ j)
    → (n i : ℕ) (x : String) → i < n
    → x ≡ uuid i
    → str_eq (uuid n) x ≡ false
fresh_differs {uuid} inj n i x below issued = elim (Bool-cases (str_eq (uuid n) x)) [
  | inl same ↦ absurd (omega (arith, below, inj n i ((eq_iff (uuid n) x).0 same ∙ issued)))
  | inr differs ↦ differs
]

module _ {V : Type 0} (uuid : ℕ → String) where
  module _ (x : String) (c : ChangeRequest V) where
    module _ (iso : ℕ → String) (time_of : String → Option ℕ) where
      create_change-Holds :
          (inj : (i j : ℕ) → uuid i ≡ uuid j → i ≡ j) (route : Route) (comment : Option String)
          (body : Option (List (FlagInstruction V))) (now : ℕ) (s : Store V)
          → Holds uuid x c s
          → Holds uuid x c (create_change uuid iso route comment body now s).0
      unfolding create_change
      create_change-Holds inj route comment none now s h = h
      create_change-Holds inj route comment (some []) now s h = h
      create_change-Holds inj route comment (some (ins ∷ instructions)) now s h =
          let (i, below, issued) =
            All-find (IsIssued uuid s.issued) (is_change x) s.changes c h.ids h.found in
          let named = (eq_iff c.id x).0 (find-passes (is_change x) s.changes c h.found) in
          record {
            ids = (
              (s.issued, omega arith, refl),
              IsIssued-later uuid s.issued (suc s.issued) s.changes (omega arith) h.ids,
            );
            found =
                find-later (is_change x) _ s.changes
                  (fresh_differs inj s.issued i x below (sym named ∙ issued))
                ∙ h.found;
          }

      -- A review of one change request leaves the others as they are.
      review-Holds :
          (status : ChangeStatus) (y : String) (comment : Option String) (now : ℕ) (s : Store V)
          → str_eq y x ≡ false
          → Holds uuid x c s
          → Holds uuid x c (record s {
            changes = update_first (is_change y) (reviewed uuid iso status comment now) s.changes;
          })
      review-Holds status y comment now s differs h = record {
        ids =
            All-update_first (IsIssued uuid s.issued) (is_change y)
              (reviewed uuid iso status comment now) s.changes (λ z issued. issued) h.ids;
        found =
            find-update_other (is_change y) (is_change x) (reviewed uuid iso status comment now)
              s.changes
              (λ z is_y. (str_eq-other z.id y x is_y differs, str_eq-other z.id y x is_y differs))
            ∙ h.found;
      }

      finish-Holds :
          (r : Waiting V) (comment : Option String) (now : ℕ) (s : Store V)
          → str_eq (change_of r) x ≡ false
          → Holds uuid x c s
          → Holds uuid x c (finish uuid iso r comment now s).0
      unfolding finish_approval finish_rejection
      finish-Holds (approving y d) comment now s differs h =
          leave uuid x c _ _ refl
            (apply_at_later uuid x c (config_key d.flag_key d.environment_key) d.instructions s)
            (review-Holds approved y comment now s differs h)
      finish-Holds (rejecting y d) comment now s differs h =
          review-Holds rejected y comment now s differs h

      -- No review of the change request waits.
      abbrev pub AreOthers : List (Waiting V) → Type 0
      AreOthers reviews = All (λ r. str_eq (change_of r) x ≡ false) reviews

      -- A change request that is decided is not reviewed any more.
      wait_if_pending-AreOthers :
          (kind : String → ChangeRequest V → Waiting V) (y : String) (s : Store V)
          (reviews : List (Waiting V))
          → ((d : ChangeRequest V) → change_of (kind y d) ≡ y)
          → is_pending c.status ≡ false
          → find (is_change x) s.changes ≡ some c
          → AreOthers reviews
          → AreOthers (wait_if_pending kind y (find (is_change y) s.changes) reviews)
      unfolding wait_if_pending
      wait_if_pending-AreOthers kind y s reviews named decided found h =
          elim (Bool-cases (str_eq y x)) [
            | inl same ↦
                rw (ap (λ z. find (is_change z) s.changes) ((eq_iff y x).0 same) ∙ found, decided) h
            | inr differs ↦ elim (Option-cases (find (is_change y) s.changes)) [
              | inl absent ↦ rw absent h
              | inr (d, located) ↦ elim (Bool-cases (is_pending d.status)) [
                | inl waits ↦ rw (located, waits) (ap (λ z. str_eq z x) (named d) ∙ differs, h)
                | inr settled ↦ rw (located, settled) h
              ]
            ]
          ]

      -- The change request is there, with its id handed out, and no review of it waits.
      pub record IsDecided (w : BackendState V) : Type 0 where
        pub holds : Holds uuid x c w.store
        pub others : AreOthers w.reviews

      module _ (inj : (i j : ℕ) → uuid i ≡ uuid j → i ≡ j)
          (decided : is_pending c.status ≡ false) where
        Step-IsDecided :
            {u v : BackendState V} → Step uuid iso time_of u v → IsDecided u → IsDecided v
        unfolding get_config patch_config start_approval start_rejection cancel list_scheduled
            run_due
        Step-IsDecided (gets route w) h = record {
          holds = leave uuid x c w.store _ refl (omega arith) h.holds;
          others = h.others;
        }
        Step-IsDecided (patches route instructions w) h = record {
          holds =
              apply_at-Holds uuid x c (config_key route.flag_key route.env_key) instructions w.store
                h.holds;
          others = h.others;
        }
        Step-IsDecided (proposes route comment body now w) h = record {
          holds = create_change-Holds inj route comment body now w.store h.holds;
          others = h.others;
        }
        Step-IsDecided (starts_approval y w) h = record {
          holds = h.holds;
          others =
              wait_if_pending-AreOthers approving y w.store w.reviews (λ d. refl) decided
                h.holds.found h.others;
        }
        Step-IsDecided (starts_rejection y w) h = record {
          holds = h.holds;
          others =
              wait_if_pending-AreOthers rejecting y w.store w.reviews (λ d. refl) decided
                h.holds.found h.others;
        }
        Step-IsDecided (finishes before r after comment now s) h =
            let (first, rest) =
              All-split (λ q. str_eq (change_of q) x ≡ false) before (r ∷ after) h.others in
            record {
              holds = finish-Holds r comment now s rest.0 h.holds;
              others = All-append (λ q. str_eq (change_of q) x ≡ false) before after first rest.1;
            }
        Step-IsDecided (lists status flag env now w) h =
            let t = run_list-Holds uuid x c iso time_of now w.store.scheduled w.store h.holds in
            record { holds = record { ids = t.ids; found = t.found }; others = h.others }
        Step-IsDecided (schedules route comment time body now w) h = record {
          holds =
              create_scheduled-Holds uuid x c iso time_of route comment time body now w.store
                h.holds;
          others = h.others;
        }
        Step-IsDecided (cancels y w) h = record {
          holds =
              cancel_found-Holds uuid x c iso time_of
                (find (is_scheduled uuid iso time_of y) w.store.scheduled) y w.store h.holds;
          others = h.others;
        }

        Steps-IsDecided :
            {u v : BackendState V} → Steps uuid iso time_of u v → IsDecided u → IsDecided v
        Steps-IsDecided (stay w) h = h
        Steps-IsDecided (go_on u v w step steps) h = Steps-IsDecided steps (Step-IsDecided step h)

        -- A change request that was approved or rejected stays as it is, with its reviewer, its
        -- comment and its status, whatever calls the backend serves in whatever order, also while
        -- reviews wait for the bodies of their requests, if at first no review of it waits. No id
        -- is handed out twice, and the ids of the change requests at first were handed out.
        pub Steps-decided :
            (u v : BackendState V)
            → All (IsIssued uuid u.store.issued) u.store.changes
            → find (is_change x) u.store.changes ≡ some c
            → All (λ r. str_eq (change_of r) x ≡ false) u.reviews
            → Steps uuid iso time_of u v
            → find (is_change x) v.store.changes ≡ some c
        Steps-decided u v ids found others steps =
            let start : IsDecided u = record {
              holds = record { ids = ids; found = found };
              others = others;
            } in
            (Steps-IsDecided steps start).holds.found
