-- ===== src/Dashboard/Session/Refinement.antt =====
-- What a session is to its users: one token, which signing in sets, signing out drops and loading the
-- page again keeps.
use flag_it.Common.{Option, none, some, String, List, [], ◌∷◌, ◌≡◌, refl}
use flag_it.Dashboard.Session.{
  Storage, Holder, Session, Action, signs_in, signs_out, reloads, get_token, set_token, clear_token,
  create_store, sign_in, sign_out, step, run, is_some,
}

-- A storage that works: reading never throws, and gives what was written last.
pub record IsWorking (S : Storage) : Type 0 where
  pub get : (s : S.State) → (item : Option String) × (S.get_item s ≡ some item)
  pub set :
      (s : S.State) (token : String)
      → (t : S.State) × ((S.set_item s token ≡ some t) × (S.get_item t ≡ some (some token)))
  pub remove :
      (s : S.State) → (t : S.State) × ((S.remove_item s ≡ some t) × (S.get_item t ≡ some none))

module _ (S : Storage) where
  -- The same calls, on the token alone.
  abbrev pub after : Action S → Option String → Option String
  after (signs_in token) old = some token
  after signs_out old = none
  after reloads old = old

  pub replay : List (Action S) → Option String → Option String
  replay [] token = token
  replay (a ∷ actions) token = replay actions (after a token)

  -- The store, the transport and `isAuthenticated` agree on a token.
  pub record IsOf (token : Option String) (s : Session S) : Type 0 where
    pub shown : s.token ≡ token
    pub known : s.is_authenticated ≡ is_some S token
    pub cached : s.holder.cached ≡ some token

  -- The storage holds it too.
  pub record IsStored (token : Option String) (s : Session S) : Type 0 where
    pub agrees : IsOf token s
    pub kept : S.get_item s.holder.storage ≡ some token

  created :
      (c : Option (Option String)) (t : S.State)
      → let s = create_store S (record { cached = c; storage = t }) in IsOf s.token s
  unfolding create_store get_token
  created none t = record { shown = refl; known = refl; cached = refl }
  created (some token) t = record { shown = refl; known = refl; cached = refl }

  step-IsOf : (a : Action S) (s : Session S) → IsOf s.token s → IsOf (step S a s).token (step S a s)
  unfolding sign_in sign_out set_token clear_token
  step-IsOf (signs_in token) s h = record { shown = refl; known = refl; cached = refl }
  step-IsOf signs_out s h = record { shown = refl; known = refl; cached = refl }
  step-IsOf reloads s h = created none s.holder.storage

  run-IsOf :
      (actions : List (Action S)) (s : Session S)
      → IsOf s.token s
      → IsOf (run S actions s).token (run S actions s)
  unfolding run
  run-IsOf [] s h = h
  run-IsOf (a ∷ actions) s h = run-IsOf actions (step S a s) (step-IsOf a s h)

  -- Whatever the storage does, also when it throws, over any sequence of signing in, signing out and
  -- loading the page again: the store shows the token that the transport reads, and says that it is
  -- authenticated when there is one.
  pub run-create_store_agrees :
      (actions : List (Action S)) (h : Holder S)
      → let s = run S actions (create_store S h) in
        ((get_token S s.holder).0 ≡ s.token) × (s.is_authenticated ≡ is_some S s.token)
  unfolding get_token
  run-create_store_agrees actions h =
      let r = run-IsOf actions (create_store S h) (created h.cached h.storage) in
      (rw r.cached refl, r.known)

  stored :
      (token : Option String) (t : S.State)
      → S.get_item t ≡ some token
      → IsStored token (create_store S (record { cached = none; storage = t }))
  unfolding create_store get_token
  stored token t e = record {
    agrees = record { shown = rw e refl; known = rw e refl; cached = rw e refl };
    kept = e;
  }

  step-IsStored :
      IsWorking S
      → (a : Action S) (token : Option String) (s : Session S) → IsStored token s
      → IsStored (after a token) (step S a s)
  unfolding sign_in sign_out set_token clear_token
  step-IsStored W (signs_in token) old s h =
      let (t, (done, back)) = W.set s.holder.storage token in
      record { agrees = record { shown = refl; known = refl; cached = refl }; kept = rw done back }
  step-IsStored W signs_out old s h =
      let (t, (done, back)) = W.remove s.holder.storage in
      record { agrees = record { shown = refl; known = refl; cached = refl }; kept = rw done back }
  step-IsStored W reloads token s h = stored token s.holder.storage h.kept

  run-IsStored :
      IsWorking S
      → (actions : List (Action S)) (token : Option String) (s : Session S) → IsStored token s
      → IsStored (replay actions token) (run S actions s)
  unfolding run replay
  run-IsStored W [] token s h = h
  run-IsStored W (a ∷ actions) token s h =
      run-IsStored W actions (after a token) (step S a s) (step-IsStored W a token s h)

  -- Over a storage that works, a session that starts from the storage refines the single token: after
  -- any sequence of signing in, signing out and loading the page again, the store, the transport and
  -- the storage hold the token of the replay.
  pub run_refines :
      IsWorking S
      → (actions : List (Action S)) (t : S.State) {token : Option String}
      → S.get_item t ≡ some token
      → IsStored
          (replay actions token)
          (run S actions (create_store S (record { cached = none; storage = t })))
  run_refines W actions t {token} e = run-IsStored W actions token _ (stored token t e)
