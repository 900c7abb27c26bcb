-- ===== src/Backend/Triggers/Secrets.antt =====
-- Which secrets the replies on triggers show.
use flag_it.Common.{
  ℕ, Bool, Option, none, some, String, List, [], ◌∷◌, ◌++◌, ◌≡◌, refl, map, find, filterb, ◌&&◌,
}
use flag_it.Backend.Changes.{matches}
use flag_it.Backend.Triggers.{
  FlagTrigger, TriggerStore, trigger_token, trigger_url, without_secret, is_trigger, TriggerCall,
  list_triggers, create_trigger, enable_trigger, reset_trigger, delete_trigger, TriggerReply,
  all_of, one_of, missing, no_content, enable_found, reset_found, serve_trigger,
}

abbrev pub texts_of : Option String → List String
texts_of none = []
texts_of (some s) = s ∷ []

abbrev secrets_of : FlagTrigger → List String
secrets_of t = texts_of t.token ++ texts_of t.url

abbrev secrets_of_all : List FlagTrigger → List String
secrets_of_all [] = []
secrets_of_all (t ∷ ts) = secrets_of t ++ secrets_of_all ts

-- The tokens and URLs in a reply.
abbrev pub shown : TriggerReply → List String
shown (all_of ts) = secrets_of_all ts
shown (one_of t) = secrets_of t
shown missing = []
shown no_content = []

-- The token and the URL that the n-th id gives, if there is a trigger to give them to.
abbrev fresh_secrets : {A : Type 0} → (ℕ → String) → Option A → ℕ → List String
fresh_secrets uuid none n = []
fresh_secrets uuid (some t) n = trigger_token (uuid n) ∷ trigger_url (trigger_token (uuid n)) ∷ []

-- The secrets that a call makes.
unfoldable pub made : (ℕ → String) → TriggerCall → TriggerStore → List String
made uuid (list_triggers flag env) s = []
made uuid (create_trigger route action description now) s = fresh_secrets uuid (some tt) s.issued
made uuid (enable_trigger x enabled) s = []
made uuid (reset_trigger x) s = fresh_secrets uuid (find (is_trigger x) s.triggers) s.issued
made uuid (delete_trigger x) s = []

secrets_stripped : (ts : List FlagTrigger) → secrets_of_all (map without_secret ts) ≡ []
secrets_stripped [] = refl
secrets_stripped (t ∷ ts) = secrets_stripped ts

enabled_shown :
    (o : Option FlagTrigger) (x : String) (enabled : Bool) (s : TriggerStore)
    → shown (enable_found o x enabled s).1 ≡ []
unfolding enable_found
enabled_shown none x enabled s = refl
enabled_shown (some t) x enabled s = refl

reset_shown :
    (uuid iso : ℕ → String) (o : Option FlagTrigger) (x : String) (s : TriggerStore)
    → shown (reset_found uuid iso o x s).1 ≡ fresh_secrets uuid o s.issued
unfolding reset_found
reset_shown uuid iso none x s = refl
reset_shown uuid iso (some t) x s = refl

-- A reply on triggers shows exactly the token and the URL that the call itself has made: no reply
-- shows those of a trigger that was there before.
pub shown-serve_trigger :
    (uuid iso : ℕ → String) (call : TriggerCall) (s : TriggerStore)
    → shown (serve_trigger uuid iso call s).1 ≡ made uuid call s
unfolding serve_trigger made
shown-serve_trigger uuid iso (list_triggers flag env) s =
    secrets_stripped
      (filterb (λ t. matches flag t.flag_key && matches env t.environment_key) s.triggers)
shown-serve_trigger uuid iso (create_trigger route action description now) s = refl
shown-serve_trigger uuid iso (enable_trigger x enabled) s =
    enabled_shown (find (is_trigger x) s.triggers) x enabled s
shown-serve_trigger uuid iso (reset_trigger x) s =
    reset_shown uuid iso (find (is_trigger x) s.triggers) x s
shown-serve_trigger uuid iso (delete_trigger x) s = refl
