-- ===== src/Backend/Webhooks.antt =====
-- The outbound webhooks of web/src/mocks/handlers.ts. `uuid` is `crypto.randomUUID`, and `iso` the text
-- of a time.
pub mod Secrets
use Prim.Native.String.{◌++◌ as str_append}
use flag_it.Common.{
  ℕ, suc, ◌+◌, Bool, true, false, Option, none, some, String, List, [], ◌∷◌, not, map, str_eq, find,
  filterb, update_first,
}
use flag_it.Backend.Changes.{mock_user_id, mock_user_email, or_empty}
use flag_it.Backend.Triggers.{without_dashes}

pub record Webhook : Type 0 where
  pub id : String
  pub organization_id : String
  pub url : String
  pub secret : Option String
  pub event_types : List String
  pub description : String
  pub enabled : Bool
  pub created_by : String
  pub created_by_email : String
  pub created_at : String

pub data DeliveryStatus : Type 0 where
  waits : DeliveryStatus
  succeeded : DeliveryStatus
  broke : DeliveryStatus

pub record WebhookDelivery : Type 0 where
  pub id : String
  pub webhook_id : String
  pub event_type : String
  pub status : DeliveryStatus
  pub attempts : ℕ
  pub response_status : ℕ
  pub error : Option String
  pub next_attempt_at : String
  pub created_at : String
  pub delivered_at : Option String

-- `mockWebhooks`, and the number of ids that were handed out.
pub record WebhookStore : Type 0 where
  pub webhooks : List Webhook
  pub issued : ℕ

unfoldable pub webhook_secret : String → String
unfolding without_dashes
webhook_secret id = str_append "whsec_" (without_dashes id)

abbrev pub webhook_no_secret : Webhook → Webhook
webhook_no_secret w = record w { secret = none }

abbrev pub is_webhook : String → Webhook → Bool
is_webhook x w = str_eq w.id x

-- What a call of a webhook handler asks for.
pub data WebhookCall : Type 0 where
  list_webhooks : WebhookCall
  create_webhook : String → Option (List String) → Option String → ℕ → WebhookCall
  enable_webhook : String → Bool → WebhookCall
  reset_webhook : String → WebhookCall
  test_webhook : String → ℕ → WebhookCall
  delete_webhook : String → WebhookCall

pub data WebhookReply : Type 0 where
  all_of : List Webhook → WebhookReply
  one_of : Webhook → WebhookReply
  delivery_of : WebhookDelivery → WebhookReply
  refused : ℕ → String → WebhookReply
  no_content : WebhookReply

unfoldable pub enable_found :
    Option Webhook → String → Bool → WebhookStore → WebhookStore × WebhookReply
enable_found none x enabled s = (s, refused 404 "not found")
enable_found (some w) x enabled s = (
  record s {
    webhooks = update_first (is_webhook x) (λ v. record v { enabled = enabled }) s.webhooks;
  },
  one_of (webhook_no_secret (record w { enabled = enabled })),
)

module _ (uuid iso : ℕ → String) where
  abbrev pub renewed : ℕ → Webhook → Webhook
  renewed n w = record w { secret = some (webhook_secret (uuid n)) }

  unfoldable pub reset_found : Option Webhook → String → WebhookStore → WebhookStore × WebhookReply
  unfolding webhook_secret
  reset_found none x s = (s, refused 404 "not found")
  reset_found (some w) x s = (
    record {
      webhooks = update_first (is_webhook x) (renewed s.issued) s.webhooks;
      issued = suc s.issued;
    },
    one_of (renewed s.issued w),
  )

  unfoldable pub test_found : Option Webhook → ℕ → WebhookStore → WebhookStore × WebhookReply
  test_found none now s = (s, refused 404 "not found")
  test_found (some w) now s = (
    record s { issued = suc s.issued },
    delivery_of (record {
      id = uuid s.issued;
      webhook_id = w.id;
      event_type = "webhook.test";
      status = waits;
      attempts = 0;
      response_status = 0;
      error = none;
      next_attempt_at = iso now;
      created_at = iso now;
      delivered_at = none;
    }),
  )

  -- The webhook has the first fresh id, and its secret is made of the second.
  abbrev pub new_webhook : String → List String → Option String → ℕ → ℕ → Webhook
  new_webhook url event_types description now n = record {
    id = uuid n;
    organization_id = "t1";
    url = url;
    secret = some (webhook_secret (uuid (suc n)));
    event_types = event_types;
    description = or_empty description;
    enabled = true;
    created_by = mock_user_id;
    created_by_email = mock_user_email;
    created_at = iso now;
  }

  unfoldable pub create_checked :
      String → Option (List String) → Option String → ℕ → WebhookStore → WebhookStore × WebhookReply
  create_checked url none description now s = (s, refused 400 "at least one event type is required")
  create_checked url (some []) description now s =
      (s, refused 400 "at least one event type is required")
  create_checked url (some (e ∷ event_types)) description now s = (
    record {
      webhooks = new_webhook url (e ∷ event_types) description now s.issued ∷ s.webhooks;
      issued = s.issued + 2;
    },
    one_of (new_webhook url (e ∷ event_types) description now s.issued),
  )

  -- The handlers.
  unfoldable pub serve_webhook : WebhookCall → WebhookStore → WebhookStore × WebhookReply
  unfolding enable_found reset_found test_found create_checked
  serve_webhook list_webhooks s = (s, all_of (map webhook_no_secret s.webhooks))
  serve_webhook (create_webhook url event_types description now) s =
      create_checked url event_types description now s
  serve_webhook (enable_webhook x enabled) s =
      enable_found (find (is_webhook x) s.webhooks) x enabled s
  serve_webhook (reset_webhook x) s = reset_found (find (is_webhook x) s.webhooks) x s
  serve_webhook (test_webhook x now) s = test_found (find (is_webhook x) s.webhooks) now s
  serve_webhook (delete_webhook x) s =
      (record s { webhooks = filterb (λ w. not (is_webhook x w)) s.webhooks }, no_content)
