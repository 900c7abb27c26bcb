-- ===== src/Dashboard/Session.antt =====
-- The bearer token, web/src/lib/auth-token.ts, and the store that mirrors it,
-- web/src/store/auth.store.ts. `localStorage` is a parameter.
pub mod Refinement
mod Tests
use flag_it.Common.{Bool, true, false, Option, none, some, String, List, [], ◌∷◌}

-- `getItem`, `setItem` and `removeItem`: none is an exception, which leaves the storage alone. An
-- item that is not there is null, the inner none.
pub record Storage : Type 1 where
  pub State : Type 0
  pub get_item : State → Option (Option String)
  pub set_item : State → String → Option State
  pub remove_item : State → Option State

module _ (S : Storage) where
  -- The variable `cached`, where none is `undefined`, and the storage.
  pub record Holder : Type 0 where
    pub cached : Option (Option String)
    pub storage : S.State

  abbrev read_item : Option (Option String) → Option String
  read_item none = none
  read_item (some item) = item

  abbrev pub fill : Option (Option String) → Holder → Option String × Holder
  fill (some token) h = (token, h)
  fill none h =
      let token = read_item (S.get_item h.storage) in (token, record h { cached = some token })

  unfoldable pub get_token : Holder → Option String × Holder
  get_token h = fill h.cached h

  abbrev or_old : Option S.State → S.State → S.State
  or_old none old = old
  or_old (some new) old = new

  unfoldable pub set_token : String → Holder → Holder
  set_token token h = record {
    cached = some (some token);
    storage = or_old (S.set_item h.storage token) h.storage;
  }

  unfoldable pub clear_token : Holder → Holder
  clear_token h = record {
    cached = some none;
    storage = or_old (S.remove_item h.storage) h.storage;
  }

  -- The state of `useAuthStore`, with the holder that it writes through to.
  pub record Session : Type 0 where
    pub token : Option String
    pub is_authenticated : Bool
    pub holder : Holder

  abbrev pub is_some : Option String → Bool
  is_some none = false
  is_some (some token) = true

  -- The store as the module creates it.
  unfoldable pub create_store : Holder → Session
  unfolding get_token
  create_store h =
      let (token, h1) = get_token h in
      let (again, h2) = get_token h1 in
      record { token = token; is_authenticated = is_some again; holder = h2 }

  unfoldable pub sign_in : String → Session → Session
  unfolding set_token
  sign_in token s = record {
    token = some token;
    is_authenticated = true;
    holder = set_token token s.holder;
  }

  unfoldable pub sign_out : Session → Session
  unfolding clear_token
  sign_out s = record { token = none; is_authenticated = false; holder = clear_token s.holder }

  -- The page is loaded again: the variables are gone, the storage stays.
  abbrev pub reload : Session → Session
  reload s = create_store (record { cached = none; storage = s.holder.storage })

  pub data Action : Type 0 where
    signs_in : String → Action
    signs_out : Action
    reloads : Action

  abbrev pub step : Action → Session → Session
  step (signs_in token) s = sign_in token s
  step signs_out s = sign_out s
  step reloads s = reload s

  unfoldable pub run : List Action → Session → Session
  run [] s = s
  run (a ∷ actions) s = run actions (step a s)
