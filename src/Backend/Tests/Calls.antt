-- ===== src/Backend/Tests/Calls.antt =====
-- The theorems on the handlers of the backend, applied to concrete stores.

use flag_it.Common.{get_elem?}
use flag_it.Common.{true, String, ℕ, false, none, some, [], ◌∷◌, ◌≡◌, refl, arith, find}
use flag_it.Flags.{pending, approved, ChangeRequest, waiting, ScheduledChange}
use flag_it.Backend.Store.{json, Store, patch_config}
use flag_it.Backend.Changes.{is_change, create_change}
use flag_it.Backend.Changes.Waiting.{
  BackendState, approving, rejecting, start_approval, start_rejection, finish,
}
use flag_it.Backend.Scheduled.{is_due, create_scheduled}
use flag_it.Backend.Scheduled.Due.{create_scheduled-invalid}
use flag_it.Backend.Steps.{
  Steps, stay, go_on, patches, starts_approval, starts_rejection, finishes, empty_store,
}
use flag_it.Backend.Steps.Configs.{IsStore, Steps-IsStore}
use flag_it.Backend.Steps.Decided.{Steps-decided}
use flag_it.Backend.Segments.{SegmentBody, SegmentStore, saved, put_segment, put_found}
use flag_it.Backend.Triggers.{turn_on, TriggerStore, new_trigger, create_trigger, serve_trigger}
use flag_it.Backend.Webhooks.{WebhookStore}
use flag_it.Backend.Users.{User, UserStore, reset_users, list_users, patch_user}
use flag_it.Backend.Users.Reset.{list-reset-patch}
use flag_it.Backend.Tests.{
  instruction, id_text, id_text-injective, launch, revise, production, iso, time_of,
}

-- The change request that the first proposal makes.
abbrev proposal : ChangeRequest ℕ
proposal = record {
  id = "u";
  project_id = "shop";
  environment_id = "production";
  environment_key = "production";
  flag_key = "checkout";
  instructions = launch;
  comment = "";
  status = pending;
  requested_by = "u1";
  requested_by_email = "admin@flag-it.dev";
  reviewed_by = none;
  reviewed_by_email = none;
  review_comment = none;
  created_at = iso 5;
  reviewed_at = none;
}

abbrev proposed : Store ℕ
proposed = record { configs = []; changes = proposal ∷ []; scheduled = []; issued = 1 }

propose_launch :
    create_change id_text iso production none (some launch) 5 empty_store
    ≡ (proposed, json proposal)
unfolding create_change
propose_launch = refl

-- The same change request, whose instructions add two rules.
abbrev two_rules : ChangeRequest ℕ
two_rules = record proposal { instructions = instruction "addRule" ∷ instruction "addRule" ∷ [] }

abbrev two_rules_proposed : Store ℕ
two_rules_proposed = record proposed { changes = two_rules ∷ [] }

-- The change that is scheduled for the time 9.
abbrev plan : ScheduledChange ℕ
plan = record {
  id = "xu";
  project_id = "shop";
  environment_id = "production";
  environment_key = "production";
  flag_key = "checkout";
  instructions = launch;
  comment = "";
  scheduled_for = "tomorrow";
  status = waiting;
  error = none;
  created_by = "u1";
  created_by_email = "admin@flag-it.dev";
  created_at = iso 5;
  applied_at = none;
}

abbrev planned : Store ℕ
planned = record { configs = []; changes = []; scheduled = plan ∷ []; issued = 2 }

create_scheduled-invalid_example :
    (c : ScheduledChange ℕ) × ((create_scheduled id_text iso time_of production none
        (some "some day")
        (some launch)
        5
        proposed).1
      ≡ json c)
    × (c.status ≡ waiting)
    × (is_due id_text iso time_of 900 c ≡ false)
create_scheduled-invalid_example =
    create_scheduled-invalid id_text iso time_of production none "some day" (instruction "addRule")
      (instruction "addRule" ∷ instruction "turnFlagOn" ∷ []) 5 900 proposed refl refl

-- A run: an approval of the launch and a rejection are both past their test; the launch is approved,
-- the flag is patched, and then the rejection goes on.
abbrev at_first : BackendState ℕ
at_first = record { store = proposed; reviews = [] }

abbrev one_waits : BackendState ℕ
one_waits = start_approval "u" at_first

abbrev both_wait : BackendState ℕ
both_wait = start_rejection "u" one_waits

abbrev after_approval : BackendState ℕ
after_approval = record {
  store = (finish id_text iso (approving "u" proposal) none 6 proposed).0;
  reviews = rejecting "u" proposal ∷ [];
}

abbrev after_patch : BackendState ℕ
after_patch = record after_approval {
  store = (patch_config id_text production revise after_approval.store).0;
}

abbrev after_rejection : BackendState ℕ
after_rejection = record {
  store = (finish id_text iso (rejecting "u" proposal) none 8 after_patch.store).0;
  reviews = [];
}

run_of_five : Steps id_text iso time_of at_first after_rejection
unfolding start_rejection start_approval
run_of_five = go_on at_first one_waits after_rejection (starts_approval "u" at_first) (
    go_on one_waits both_wait after_rejection (starts_rejection "u" one_waits) (
      go_on both_wait after_approval after_rejection
        (finishes (rejecting "u" proposal ∷ []) (approving "u" proposal) [] none 6 proposed)
        (go_on after_approval after_patch after_rejection (patches production revise after_approval)
          (go_on after_patch after_rejection after_rejection
            (finishes [] (rejecting "u" proposal) [] none 8 after_patch.store)
            (stay after_rejection)))))

Steps-IsStore_example : IsStore id_text after_rejection.store
Steps-IsStore_example = Steps-IsStore id_text id_text-injective iso time_of run_of_five tt

-- The change request after its approval, and another one that waits for review.
abbrev approval : ChangeRequest ℕ
approval = record proposal {
  status = approved;
  reviewed_by = some "u1";
  reviewed_by_email = some "admin@flag-it.dev";
  review_comment = some "";
  reviewed_at = some (iso 6);
}

abbrev other : ChangeRequest ℕ
other = record proposal { id = "xu" }

abbrev decided : BackendState ℕ
decided = record {
  store = record proposed { changes = other ∷ approval ∷ []; issued = 2 };
  reviews = rejecting "xu" other ∷ [];
}

-- The approved one is refused a rejection, and the rejection of the other one goes on.
abbrev refused : BackendState ℕ
refused = start_rejection "u" decided

abbrev after_other : BackendState ℕ
after_other = record {
  store = (finish id_text iso (rejecting "xu" other) none 8 decided.store).0;
  reviews = [];
}

run_of_two : Steps id_text iso time_of decided after_other
unfolding start_rejection
run_of_two = go_on decided refused after_other (starts_rejection "u" decided) (
    go_on refused after_other after_other
      (finishes [] (rejecting "xu" other) [] none 8 decided.store) (stay after_other))

Steps-decided_example : find (is_change "u") after_other.store.changes ≡ some approval
Steps-decided_example =
    Steps-decided id_text "u" approval iso time_of id_text-injective refl decided after_other
      ((1, omega arith, refl), ((0, omega arith, refl), tt)) refl (refl, tt) run_of_two

abbrev body_of_beta : SegmentBody ℕ
body_of_beta = record {
  name = some "Beta";
  description = none;
  included = some ("ann" ∷ []);
  excluded = none;
  included_contexts = none;
  excluded_contexts = none;
  rules = none;
}

-- The segment "beta" at version 1.
abbrev with_beta : SegmentStore ℕ
with_beta = record { segments = saved "beta" body_of_beta none (id_text 0) ∷ []; issued = 1 }

put_beta :
    (put_segment id_text "beta" body_of_beta (record { segments = []; issued = 0 })).0 ≡ with_beta
unfolding put_segment
put_beta = refl

segment_test : (put_segment id_text "beta" body_of_beta with_beta).1.version ≡ 2
unfolding put_segment put_found
segment_test = refl

abbrev no_triggers : TriggerStore
no_triggers = record { triggers = []; issued = 0 }

-- A store with one trigger, of id "xu".
abbrev one_trigger : TriggerStore
one_trigger = record {
  triggers = new_trigger id_text iso production turn_on none 5 0 ∷ [];
  issued = 2;
}

create_one :
    (serve_trigger id_text iso (create_trigger production turn_on none 5) no_triggers).0
    ≡ one_trigger
unfolding serve_trigger
create_one = refl

abbrev no_webhooks : WebhookStore
no_webhooks = record { webhooks = []; issued = 0 }

abbrev user_of : String → String → User
user_of x full_name = record {
  id = x;
  email = "admin@flag-it.dev";
  full_name = full_name;
  is_superuser = false;
  is_active = true;
  created_at = "2026-07-01T00:00:00Z";
  updated_at = "2026-07-01T00:00:00Z";
}

abbrev seed_users : UserStore
seed_users = record {
  heap = user_of "1" "Admin" ∷ user_of "2" "Alan Turing" ∷ [];
  users = 0 ∷ 1 ∷ [];
  issued = 0;
}

list-reset-patch_example :
    let edited = record (user_of "2" "Alan") { is_active = false } in
    let listed = list_users (reset_users 2 (patch_user "2" "Alan" false seed_users).0) in
    (listed ≡ user_of "1" "Admin" ∷ edited ∷ []) × (get_elem? listed 1 ≡ some edited)
unfolding list_users reset_users
list-reset-patch_example =
    list-reset-patch 2 "2" "Alan" false seed_users 1 (user_of "2" "Alan Turing") (omega arith) refl
      refl
