-- ===== src/Dashboard/Session/Tests.antt =====
-- Sessions over a storage that works and over one that always throws.
use flag_it.Common.{◌≡◌, refl, Option, none, some, String, List, [], ◌∷◌}
use flag_it.Dashboard.Session.{
  Storage, Session, Action, signs_in, signs_out, reloads, get_token, create_store, run, sign_in,
}
use flag_it.Dashboard.Session.Refinement.{IsWorking, IsStored, replay, run_refines}

abbrev one_item : Storage
one_item = record {
  State = Option String;
  get_item = λ s. some s;
  set_item = λ s token. some (some token);
  remove_item = λ s. some none;
}

one_item-IsWorking : IsWorking one_item
one_item-IsWorking = record {
  get = λ s. (s, refl);
  set = λ s token. (some token, (refl, refl));
  remove = λ s. (none, (refl, refl));
}

abbrev history : {S : Storage} → List (Action S)
history = signs_in "abc" ∷ reloads ∷ signs_out ∷ signs_in "def" ∷ reloads ∷ []

run_refines_example :
    IsStored one_item (replay one_item history (some "old")) (
      run one_item history (create_store one_item (record { cached = none; storage = some "old" })))
run_refines_example =
    run_refines one_item one_item-IsWorking history (some "old") {token = some "old"} refl

abbrev throwing : Storage
throwing = record {
  State = Unit;
  get_item = λ s. none;
  set_item = λ s token. none;
  remove_item = λ s. none;
}

abbrev in_private : Session throwing
in_private =
    run throwing (signs_in "abc" ∷ [])
      (create_store throwing (record { cached = none; storage = tt }))

private_test : in_private.token ≡ some "abc"
unfolding run create_store sign_in get_token
private_test = refl
