-- ===== src/Sdk/Cached.antt =====
-- `createCachedClient` of sdk/javascript/src/index.ts: the flag values of one context in memory,
-- kept up to date by a stream, with usage counts that are sent in batches. The callbacks and the
-- methods are functions from a state to a state; between two of them the event loop may run any
-- other, so a history of the client is a list of events.
pub mod Usage
pub mod Accounting
pub mod Readiness
pub mod Promises
use flag_it.Common.{
  ℕ, suc, ◌+◌, Bool, true, false, Option, none, some, String, List, [], ◌∷◌, ◌++◌, map, ltb, ◌&&◌,
  ◌==◌, not, if◌then◌else◌, ℤ, filterb, any,
}
use flag_it.Sdk.Json.{Json, bool, num, str, lookup, assign}
use flag_it.Sdk.Context.{EvalContext}
use flag_it.Sdk.Cached.Usage.{Counts, bump}

-- `Evaluation`: the payload of the stream is taken to have the declared types.
pub record Evaluation (N : Type 0) : Type 0 where
  pub flag_key : String
  pub value : Json N
  pub variation : ℤ
  pub reason : String

abbrev pub Store : Type 0 → Type 0
Store N = List (String × Evaluation N)

-- One stream that `startStream` opened, and whether its handle was closed.
pub record Connection (N : Type 0) : Type 0 where
  pub context : EvalContext N
  pub closed : Bool

-- The variables that the closures of the client share. Listeners and the resolvers of promises are
-- known by numbers. `connections` has the stream of `handle` at the head.
pub record Client (N : Type 0) : Type 0 where
  pub store : Store N
  pub ready : Bool
  pub current_context : EvalContext N
  pub connections : List (Connection N)
  pub listeners : List ℕ
  pub ready_resolvers : List ℕ
  pub counts : Counts
  pub timer : Bool

-- What a callback or a method does outside the client: promises resolved, listeners called, and
-- the summary passed to `base.sendEvents`.
pub record Effects : Type 0 where
  pub resolved : List ℕ
  pub notified : List ℕ
  pub sent : Option Counts

abbrev pub no_effects : Effects
no_effects = record { resolved = []; notified = []; sent = none }

module _ {N : Type 0} where
  abbrev connection : EvalContext N → Connection N
  connection ctx = record { context = ctx; closed = false }

  -- `startStream()`
  unfoldable pub start_stream : Client N → Client N
  start_stream c = record c { connections = connection c.current_context ∷ c.connections }

  -- `handle?.close()`
  abbrev pub close_head : List (Connection N) → List (Connection N)
  close_head [] = []
  close_head (k ∷ ks) = record k { closed = true } ∷ ks

  unfoldable pub close_handle : Client N → Client N
  close_handle c = record c { connections = close_head c.connections }

  -- The state that `createCachedClient` returns with.
  unfoldable pub create : Bool → ℕ → EvalContext N → Client N
  unfolding start_stream
  create track_events flush_interval context = start_stream (record {
    store = [];
    ready = false;
    current_context = context;
    connections = [];
    listeners = [];
    ready_resolvers = [];
    counts = [];
    timer = ltb 0 flush_interval && track_events;
  })

  -- The stream's callback, `markReady` included. It does not ask which stream it belongs to.
  unfoldable pub on_update : Store N → Client N → Client N × Effects
  on_update flags c = (
    record c {
      store = flags;
      ready = true;
      ready_resolvers = if c.ready then c.ready_resolvers else [];
    },
    record {
      resolved = if c.ready then [] else c.ready_resolvers;
      notified = c.listeners;
      sent = none;
    },
  )

  -- `record(flagKey, variation)`
  unfoldable pub record_use : Bool → String → ℤ → Client N → Client N
  record_use track_events flag_key variation c =
      if track_events then record c { counts = bump flag_key variation c.counts } else c

  abbrev count_read : Bool → String → Option (Evaluation N) → Client N → Client N
  count_read track_events flag_key none c = c
  count_read track_events flag_key (some ev) c = record_use track_events flag_key ev.variation c

  -- `read(flagKey)`, of a key that is no member of `Object.prototype`, which `store[flagKey]` would find
  -- in every object.
  unfoldable pub read : Bool → String → Client N → Client N × Option (Evaluation N)
  unfolding record_use lookup
  read track_events flag_key c =
      let ev = lookup flag_key c.store in (count_read track_events flag_key ev c, ev)

  abbrev bool_of : Option (Evaluation N) → Bool → Bool
  bool_of none fallback = fallback
  bool_of (some ev) fallback = elim ev.value [ bool b ↦ b | _ ↦ fallback ]

  abbrev string_of : Option (Evaluation N) → String → String
  string_of none fallback = fallback
  string_of (some ev) fallback = elim ev.value [ str s ↦ s | _ ↦ fallback ]

  abbrev number_of : Option (Evaluation N) → N → N
  number_of none fallback = fallback
  number_of (some ev) fallback = elim ev.value [ num n ↦ n | _ ↦ fallback ]

  abbrev value_of : Option (Evaluation N) → Json N → Json N
  value_of none fallback = fallback
  value_of (some ev) fallback = ev.value

  unfoldable pub bool_variation : Bool → String → Bool → Client N → Client N × Bool
  unfolding read
  bool_variation track_events flag_key fallback c =
      let (c', ev) = read track_events flag_key c in (c', bool_of ev fallback)

  unfoldable pub string_variation : Bool → String → String → Client N → Client N × String
  unfolding read
  string_variation track_events flag_key fallback c =
      let (c', ev) = read track_events flag_key c in (c', string_of ev fallback)

  unfoldable pub number_variation : Bool → String → N → Client N → Client N × N
  unfolding read
  number_variation track_events flag_key fallback c =
      let (c', ev) = read track_events flag_key c in (c', number_of ev fallback)

  unfoldable pub variation : Bool → String → Json N → Client N → Client N × Json N
  unfolding read
  variation track_events flag_key fallback c =
      let (c', ev) = read track_events flag_key c in (c', value_of ev fallback)

  -- `flush()`, as far as the call of `base.sendEvents`, before which it does not wait. A failure of
  -- that call is handed to `onError`, and the counts are not put back.
  unfoldable pub flush : Client N → Client N × Effects
  flush c = elim c.counts [
    | [] ↦ (c, no_effects)
    | k ∷ ks ↦ (record c { counts = [] }, record no_effects { sent = some (k ∷ ks) })
  ]

  -- `waitForInitialization()`; the promise `id` is resolved at once or later.
  unfoldable pub wait_for_initialization : ℕ → Client N → Client N × Effects
  wait_for_initialization id c =
      if c.ready
      then (c, record no_effects { resolved = id ∷ [] })
      else (record c { ready_resolvers = c.ready_resolvers ++ id ∷ [] }, no_effects)

  -- `listeners.add(listener)`, on a set.
  unfoldable pub on_change : ℕ → Client N → Client N
  on_change listener c = record c {
    listeners =
        if any (λ l. l == listener) c.listeners then c.listeners else c.listeners ++ listener ∷ [];
  }

  -- `listeners.delete(listener)`
  unfoldable pub unsubscribe : ℕ → Client N → Client N
  unsubscribe listener c = record c { listeners = filterb (λ l. not (l == listener)) c.listeners }

  -- `identify(context)` from after its `await flush()`; `id` is the promise that it returns.
  unfoldable pub switch_context : EvalContext N → ℕ → Client N → Client N
  unfolding close_handle start_stream
  switch_context context id c = start_stream (record (close_handle c) {
    store = [];
    ready = false;
    current_context = context;
    ready_resolvers = c.ready_resolvers ++ id ∷ [];
  })

  -- `close()`
  unfoldable pub close : Client N → Client N × Effects
  unfolding close_handle flush
  close c = flush (record (close_handle c) { timer = false })

-- What can happen to a client between two turns of the event loop. `identify` is `flushing` and,
-- some events later, `switching`.
pub data Event (N : Type 0) : Type 0 where
  evaluating : String → Event N
  updating : Store N → Event N
  flushing : Event N
  waiting : ℕ → Event N
  subscribing : ℕ → Event N
  unsubscribing : ℕ → Event N
  switching : EvalContext N → ℕ → Event N
  closing : Event N

module _ {N : Type 0} (track_events : Bool) where
  unfoldable pub step : Event N → Client N → Client N × Effects
  unfolding read on_update flush wait_for_initialization on_change unsubscribe switch_context close
  step (evaluating flag_key) c = ((read track_events flag_key c).0, no_effects)
  step (updating flags) c = on_update flags c
  step flushing c = flush c
  step (waiting id) c = wait_for_initialization id c
  step (subscribing listener) c = (on_change listener c, no_effects)
  step (unsubscribing listener) c = (unsubscribe listener c, no_effects)
  step (switching context id) c = (switch_context context id c, no_effects)
  step closing c = close c

  unfoldable pub run : List (Event N) → Client N → Client N × List Effects
  unfolding step
  run [] c = (c, [])
  run (e ∷ events) c =
      let (c', effects) = step e c in let (final, later) = run events c' in (final, effects ∷ later)
