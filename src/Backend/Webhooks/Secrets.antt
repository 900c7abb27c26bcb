-- ===== src/Backend/Webhooks/Secrets.antt =====
-- Which secrets the replies on webhooks show.
use flag_it.Common.{
  ℕ, suc, Bool, Option, none, some, String, List, [], ◌∷◌, ◌++◌, ◌≡◌, refl, map, find,
}
use flag_it.Backend.Triggers.Secrets.{texts_of}
use flag_it.Backend.Webhooks.{
  Webhook, WebhookStore, webhook_secret, webhook_no_secret, is_webhook, WebhookCall, list_webhooks,
  create_webhook, enable_webhook, reset_webhook, test_webhook, delete_webhook, WebhookReply, all_of,
  one_of, delivery_of, refused, no_content, enable_found, reset_found, test_found, create_checked,
  serve_webhook,
}

abbrev secrets_of_all : List Webhook → List String
secrets_of_all [] = []
secrets_of_all (w ∷ ws) = texts_of w.secret ++ secrets_of_all ws

-- The secrets in a reply.
abbrev pub shown : WebhookReply → List String
shown (all_of ws) = secrets_of_all ws
shown (one_of w) = texts_of w.secret
shown (delivery_of d) = []
shown (refused status detail) = []
shown no_content = []

-- The secret that the n-th id gives, if there is a webhook to give it to.
abbrev secret_for : {A : Type 0} → (ℕ → String) → Option A → ℕ → List String
secret_for uuid none n = []
secret_for uuid (some w) n = webhook_secret (uuid n) ∷ []

-- The first event type.
abbrev first_of : Option (List String) → Option String
first_of none = none
first_of (some []) = none
first_of (some (e ∷ event_types)) = some e

-- The secret that a call makes.
unfoldable pub made_by : (ℕ → String) → WebhookCall → WebhookStore → List String
made_by uuid list_webhooks s = []
made_by uuid (create_webhook url event_types description now) s =
    secret_for uuid (first_of event_types) (suc s.issued)
made_by uuid (enable_webhook x enabled) s = []
made_by uuid (reset_webhook x) s = secret_for uuid (find (is_webhook x) s.webhooks) s.issued
made_by uuid (test_webhook x now) s = []
made_by uuid (delete_webhook x) s = []

secrets_stripped : (ws : List Webhook) → secrets_of_all (map webhook_no_secret ws) ≡ []
secrets_stripped [] = refl
secrets_stripped (w ∷ ws) = secrets_stripped ws

enabled_shown :
    (o : Option Webhook) (x : String) (enabled : Bool) (s : WebhookStore)
    → shown (enable_found o x enabled s).1 ≡ []
unfolding enable_found
enabled_shown none x enabled s = refl
enabled_shown (some w) x enabled s = refl

module _ (uuid iso : ℕ → String) where
  reset_shown :
      (o : Option Webhook) (x : String) (s : WebhookStore)
      → shown (reset_found uuid iso o x s).1 ≡ secret_for uuid o s.issued
  unfolding reset_found
  reset_shown none x s = refl
  reset_shown (some w) x s = refl

  test_shown :
      (o : Option Webhook) (now : ℕ) (s : WebhookStore) → shown (test_found uuid iso o now s).1 ≡ []
  unfolding test_found
  test_shown none now s = refl
  test_shown (some w) now s = refl

  created_shown :
      (url : String) (event_types : Option (List String)) (description : Option String) (now : ℕ)
      (s : WebhookStore)
      → shown (create_checked uuid iso url event_types description now s).1
        ≡ secret_for uuid (first_of event_types) (suc s.issued)
  unfolding create_checked
  created_shown url none description now s = refl
  created_shown url (some []) description now s = refl
  created_shown url (some (e ∷ event_types)) description now s = refl

  -- A reply on webhooks shows exactly the secret that the call itself has made: no reply shows that
  -- of a webhook that was there before.
  pub shown-serve_webhook :
      (call : WebhookCall) (s : WebhookStore)
      → shown (serve_webhook uuid iso call s).1 ≡ made_by uuid call s
  unfolding serve_webhook made_by
  shown-serve_webhook list_webhooks s = secrets_stripped s.webhooks
  shown-serve_webhook (create_webhook url event_types description now) s =
      created_shown url event_types description now s
  shown-serve_webhook (enable_webhook x enabled) s =
      enabled_shown (find (is_webhook x) s.webhooks) x enabled s
  shown-serve_webhook (reset_webhook x) s = reset_shown (find (is_webhook x) s.webhooks) x s
  shown-serve_webhook (test_webhook x now) s = test_shown (find (is_webhook x) s.webhooks) now s
  shown-serve_webhook (delete_webhook x) s = refl
