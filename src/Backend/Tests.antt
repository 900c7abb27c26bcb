-- ===== src/Backend/Tests.antt =====
-- The theorems on instructions, applied to a concrete configuration, and the data of the other tests.
mod Calls
mod Directory
use Prim.Native.String as Native
use flag_it.Common.{filterb, not}
use flag_it.Common.{
  ℕ, zero, suc, true, false, Option, none, some, String, List, [], ◌∷◌, ◌++◌, ◌≡◌, refl, sym, ap,
  ◌∙◌, arith, map, str_eq, if◌then◌else◌, length, codes, find,
}
use flag_it.Flags.{
  FlagRule, Target, FlagInstruction, pending, approved, ChangeRequest, waiting, ScheduledChange,
}
use flag_it.Backend.Targets.{add_targets, remove_targets}
use flag_it.Backend.Targets.Laws.{targeted, targeted-add_targets, targeted-remove_targets}
use flag_it.Backend.Rules.{reorder_rules}
use flag_it.Backend.Rules.Named.{is_named, picked, reorder_rules-picked}
use flag_it.Backend.Instructions.{Applied, new_config, bump, apply_instructions}
use flag_it.Backend.Instructions.Keep.{
  IsConfig, version-apply_instructions, apply_instructions-IsConfig, new_config-IsConfig,
}
use flag_it.Backend.Instructions.Batch.{apply_instructions-append}
use flag_it.Backend.Instructions.Toggles.{last_toggle, on-apply_instructions}
use flag_it.Backend.Store.{json, failure, Route, Store, config_at, patch_config}
use flag_it.Backend.Changes.{is_change, create_change, finish_approval, approve, reject}
use flag_it.Backend.Changes.Review.{approve-refused_after, reject-refused_after}
use flag_it.Backend.Scheduled.{is_due, run_due, create_scheduled}
use flag_it.Backend.Scheduled.Due.{
  run_due_idempotent, create_scheduled-not_due, create_scheduled-invalid,
}
use flag_it.Backend.Steps.Configs.{IsStore, Steps-IsStore}
use flag_it.Backend.Steps.Decided.{Steps-decided}
use flag_it.Backend.Segments.{SegmentBody, SegmentStore, saved, get_segment, put_segment}
use flag_it.Backend.Triggers.{
  turn_on, TriggerStore, new_trigger, create_trigger, reset_trigger, serve_trigger, trigger_token,
  trigger_url,
}
use flag_it.Backend.Triggers.Secrets.{shown, made, shown-serve_trigger}
use flag_it.Backend.Webhooks.{WebhookStore, create_webhook, serve_webhook, webhook_secret}
use flag_it.Backend.Webhooks.Secrets.{shown as webhook_shown, made_by, shown-serve_webhook}

-- Ids: "u", "xu", "xxu", and so on.
abbrev id_text : ℕ → String
id_text zero = "u"
id_text (suc n) = Native.◌∷◌ "x" (id_text n)

length-id_text : (n : ℕ) → length (codes (id_text n)) ≡ suc n
length-id_text zero = refl
length-id_text (suc n) = ap suc (length-id_text n)

id_text-injective : (i j : ℕ) → id_text i ≡ id_text j → i ≡ j
id_text-injective i j h =
    omega (arith, sym (length-id_text i) ∙ ap (λ s. length (codes s)) h ∙ length-id_text j)

abbrev instruction : String → FlagInstruction ℕ
instruction kind = record {
  kind = kind;
  variation = some 1;
  context_kind = none;
  values = some ("ann" ∷ "bob" ∷ []);
  clauses = some [];
  rollout = none;
  rule_id = some "u";
  rule_ids = some ("xu" ∷ "u" ∷ []);
}

abbrev launch : List (FlagInstruction ℕ)
launch = instruction "addRule" ∷ instruction "addRule" ∷ instruction "turnFlagOn" ∷ []

abbrev revise : List (FlagInstruction ℕ)
revise = instruction "reorderRules" ∷ instruction "addTargets" ∷ instruction "turnFlagOff" ∷ []

abbrev start : Applied ℕ
start = record { config = new_config; issued = 0 }

abbrev ids_of : List (FlagRule ℕ) → List (Option String)
ids_of rules = map (λ r. r.id) rules

launched_rules :
    ids_of (apply_instructions id_text (launch ++ revise) start).config.rules
    ≡ some "xu" ∷ some "u" ∷ []
unfolding apply_instructions
launched_rules = refl

abbrev staff : List Target
staff = record { context_kind = "user"; values = "ann" ∷ []; variation = 0 } ∷ []

abbrev some_rules : List (FlagRule ℕ)
some_rules = (apply_instructions id_text launch start).config.rules

reorder_rules-picked_example :
    reorder_rules ("xu" ∷ "u" ∷ []) some_rules
    ≡ filterb (λ r. not (is_named ("xu" ∷ "u" ∷ []) r)) some_rules
      ++ picked ("xu" ∷ "u" ∷ []) some_rules
reorder_rules-picked_example = reorder_rules-picked ("xu" ∷ "u" ∷ []) some_rules

abbrev production : Route
production = record { project_key = "shop"; env_key = "production"; flag_key = "checkout" }

abbrev iso : ℕ → String
iso now = "2026-07-12T00:00:00Z"

abbrev time_of : String → Option ℕ
time_of text = if str_eq text "tomorrow" then some 9 else none
