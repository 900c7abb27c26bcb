-- ===== src/Sdk/Stream.antt =====
-- `stream` of sdk/javascript/src/index.ts: the loop that opens the event stream, reads it to its
-- end, and opens it again after a delay, until `close` is called. What the network and the caller do
-- is a list of attempts; what the loop does is the list of its actions.
pub mod Backoff
pub mod Close
use flag_it.Common.{
  ℕ, ◌*◌, min, Bool, true, false, Option, none, some, List, [], ◌∷◌, ◌++◌, Text, ◌&&◌, ◌||◌, not,
  if◌then◌else◌,
}
use flag_it.Sdk.Json.{Json, obj, Host, truthy, lookup, properties}
use flag_it.Sdk.Sse.{read_event_stream}

-- One turn of the loop, as the outside decides it. A call of `close` aborts the fetch and the
-- reading, so it is seen either while the attempt lasts or in the delay after it.
pub record Attempt : Type 0 where
  -- `fetch` gave a response with `res.ok` and a body
  pub opened : Bool
  -- the decoded chunks of the body, as far as it was read
  pub chunks : List Text
  -- the reading was broken off by an error
  pub broken : Bool
  -- `close` was called before the attempt was over
  pub closed_in_attempt : Bool
  -- `close` was called in the delay after the attempt
  pub closed_in_delay : Bool

pub data Action (N : Type 0) : Type 0 where
  -- `onUpdate(flags)`
  update : Json N → Action N
  -- `onError(err)`
  error : Action N
  -- `await delay(ms)`
  wait : ℕ → Action N

-- `payload.flags`; `none` is `undefined` or a TypeError, both of which end the event here.
unfoldable pub get_flags : {N : Type 0} → Json N → Option (Json N)
unfolding lookup
get_flags (obj o) = lookup "flags" (properties o)
get_flags _ = none

abbrev pub initial_backoff : ℕ
initial_backoff = 1000

abbrev pub max_backoff : ℕ
max_backoff = 30000

-- `Math.min(backoff * 2, 30_000)`
abbrev pub next_backoff : ℕ → ℕ
next_backoff backoff = min (backoff * 2) max_backoff

module _ {N : Type 0} (host : Host N) where
  abbrev pub update_if : Option (Json N) → List (Action N)
  update_if none = []
  update_if (some flags) = if truthy host flags then update flags ∷ [] else []

  abbrev pub parsed_flags : Option (Json N) → Option (Json N)
  parsed_flags none = none
  parsed_flags (some payload) = get_flags payload

  -- The callback of `readEventStream`: a payload that is not JSON is skipped.
  unfoldable pub on_data : Text → List (Action N)
  unfolding get_flags truthy
  on_data payload = update_if (parsed_flags (host.parse payload))

  unfoldable pub on_all_data : List Text → List (Action N)
  unfolding on_data
  on_all_data [] = []
  on_all_data (payload ∷ payloads) = on_data payload ++ on_all_data payloads

  unfoldable pub updates_of : Attempt → List (Action N)
  unfolding on_all_data read_event_stream
  updates_of a = if a.opened then on_all_data (read_event_stream a.chunks) else []

  abbrev pub failed : Attempt → Bool
  failed a = not a.opened || a.broken

  -- `backoff = 1000` once the stream is open.
  unfoldable pub current_backoff : ℕ → Attempt → ℕ
  current_backoff backoff a = if a.opened then initial_backoff else backoff

  -- What follows the reading: `onError` if the attempt failed, the delay, and the next turns. After
  -- `close` none of it happens.
  unfoldable pub after_attempt : ℕ → Attempt → List (Action N) → List (Action N)
  after_attempt current a again =
      if a.closed_in_attempt
      then []
      else (if failed a then error ∷ [] else [])
        ++ wait current ∷ (if a.closed_in_delay then [] else again)

  -- `run`, from the current backoff. A list that ends leaves the loop in its last attempt.
  unfoldable pub run : ℕ → List Attempt → List (Action N)
  unfolding updates_of current_backoff after_attempt
  run backoff [] = []
  run backoff (a ∷ attempts) =
      let again = run (next_backoff (current_backoff backoff a)) attempts in
      updates_of a ++ after_attempt (current_backoff backoff a) a again

  unfoldable pub stream : List Attempt → List (Action N)
  unfolding run
  stream attempts = run initial_backoff attempts
