-- ===== src/Backend/Triggers.antt =====
-- The flag triggers of web/src/mocks/handlers.ts. `uuid` is `crypto.randomUUID`, and `iso` the text of
-- a time.
pub mod Secrets
use Prim.Native.Char.{code}
use Prim.Native.String.{◌++◌ as str_append}
use flag_it.Common.{
  ℕ, suc, ◌+◌, Bool, true, false, Option, none, some, String, List, [], ◌∷◌, not, ◌&&◌, ◌==◌, map,
  str_eq, if◌then◌else◌, find, filterb, update_first,
}
use flag_it.Backend.Store.{Route}
use flag_it.Backend.Changes.{mock_user_id, mock_user_email, or_empty, matches}

pub data TriggerAction : Type 0 where
  turn_on : TriggerAction
  turn_off : TriggerAction

pub record FlagTrigger : Type 0 where
  pub id : String
  pub project_id : String
  pub environment_id : String
  pub environment_key : String
  pub flag_key : String
  pub action : TriggerAction
  pub description : String
  pub enabled : Bool
  pub exec_count : ℕ
  pub created_by : String
  pub created_by_email : String
  pub created_at : String
  pub last_executed_at : Option String
  pub token : Option String
  pub url : Option String

-- `flagTriggers`, and the number of ids that were handed out.
pub record TriggerStore : Type 0 where
  pub triggers : List FlagTrigger
  pub issued : ℕ

-- `text.replace(/-/g, '')`
unfoldable pub without_dashes : String → String
without_dashes String.[] = String.[]
without_dashes (String.◌∷◌ c s) =
    let rest = without_dashes s in if code c == 45 then rest else String.◌∷◌ c rest

unfoldable pub trigger_token : String → String
unfolding without_dashes
trigger_token id = str_append "trg_" (without_dashes id)

unfoldable pub trigger_url : String → String
trigger_url token = str_append "http://localhost:8080/api/v1/triggers/" token

abbrev pub without_secret : FlagTrigger → FlagTrigger
without_secret t = record t { token = none; url = none }

abbrev pub is_trigger : String → FlagTrigger → Bool
is_trigger x t = str_eq t.id x

-- What a call of a trigger handler asks for.
pub data TriggerCall : Type 0 where
  list_triggers : Option String → Option String → TriggerCall
  create_trigger : Route → TriggerAction → Option String → ℕ → TriggerCall
  enable_trigger : String → Bool → TriggerCall
  reset_trigger : String → TriggerCall
  delete_trigger : String → TriggerCall

pub data TriggerReply : Type 0 where
  all_of : List FlagTrigger → TriggerReply
  one_of : FlagTrigger → TriggerReply
  missing : TriggerReply
  no_content : TriggerReply

unfoldable pub enable_found :
    Option FlagTrigger → String → Bool → TriggerStore → TriggerStore × TriggerReply
enable_found none x enabled s = (s, missing)
enable_found (some t) x enabled s = (
  record s {
    triggers = update_first (is_trigger x) (λ u. record u { enabled = enabled }) s.triggers;
  },
  one_of (without_secret (record t { enabled = enabled })),
)

module _ (uuid iso : ℕ → String) where
  -- The token and the URL that the n-th id gives.
  abbrev pub with_secret : ℕ → FlagTrigger → FlagTrigger
  with_secret n t = record t {
    token = some (trigger_token (uuid n));
    url = some (trigger_url (trigger_token (uuid n)));
  }

  unfoldable pub reset_found :
      Option FlagTrigger → String → TriggerStore → TriggerStore × TriggerReply
  unfolding trigger_token trigger_url
  reset_found none x s = (s, missing)
  reset_found (some t) x s = (
    record {
      triggers = update_first (is_trigger x) (with_secret s.issued) s.triggers;
      issued = suc s.issued;
    },
    one_of (with_secret s.issued t),
  )

  -- The token is made of the first fresh id, and the trigger has the second.
  abbrev pub new_trigger : Route → TriggerAction → Option String → ℕ → ℕ → FlagTrigger
  new_trigger route action description now n = record {
    id = uuid (suc n);
    project_id = route.project_key;
    environment_id = route.env_key;
    environment_key = route.env_key;
    flag_key = route.flag_key;
    action = action;
    description = or_empty description;
    enabled = true;
    exec_count = 0;
    created_by = mock_user_id;
    created_by_email = mock_user_email;
    created_at = iso now;
    last_executed_at = none;
    token = some (trigger_token (uuid n));
    url = some (trigger_url (trigger_token (uuid n)));
  }

  -- The handlers.
  unfoldable pub serve_trigger : TriggerCall → TriggerStore → TriggerStore × TriggerReply
  unfolding enable_found reset_found
  serve_trigger (list_triggers flag env) s = (
    s,
    all_of (
        map without_secret
          (filterb (λ t. matches flag t.flag_key && matches env t.environment_key) s.triggers)),
  )
  serve_trigger (create_trigger route action description now) s = (
    record {
      triggers = new_trigger route action description now s.issued ∷ s.triggers;
      issued = s.issued + 2;
    },
    one_of (new_trigger route action description now s.issued),
  )
  serve_trigger (enable_trigger x enabled) s =
      enable_found (find (is_trigger x) s.triggers) x enabled s
  serve_trigger (reset_trigger x) s = reset_found (find (is_trigger x) s.triggers) x s
  serve_trigger (delete_trigger x) s =
      (record s { triggers = filterb (λ t. not (is_trigger x t)) s.triggers }, no_content)
