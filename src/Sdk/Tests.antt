-- ===== src/Sdk/Tests.antt =====
-- Runs of the SDK's model, and its theorems at concrete inputs.
use flag_it.Common.{
  ℕ, ◌+◌, ◌≡◌, refl, true, false, none, some, List, [], ◌∷◌, ◌++◌, arith, Text, codes, All, concat,
  inr, pos, ◌==◌,
}
use flag_it.Sdk.Json.{null, bool, str, obj, end, field, Host, lookup}
use flag_it.Sdk.Context.{Part}
use flag_it.Sdk.Sse.{newline, index_of_break, drain, read_event_stream}
use flag_it.Sdk.Sse.Chunks.{drain_ends, read_event_stream_chunking}
use flag_it.Sdk.Sse.Frames.{put_event, read_event_stream-put_event}
use flag_it.Sdk.Client.{
  Call, Reply, rejected, response, bool_variation, string_variation, number_variation, variation,
}
use flag_it.Sdk.Client.Variations.{serves, variation-served, variation-not_served}
use flag_it.Sdk.Stream.{Attempt, Action, error, wait, stream}
use flag_it.Sdk.Stream.Backoff.{InBounds, outage_from, stream-InBounds, stream-outage}
use flag_it.Sdk.Stream.Close.{stream-closed}
use flag_it.Sdk.Cached.{
  Evaluation, Store, Client, Event, evaluating, updating, flushing, waiting, switching, create,
  step,
}
use flag_it.Sdk.Cached
use flag_it.Sdk.Cached.Usage.{count_of, bump}
use flag_it.Sdk.Cached.Accounting.{reported, uses, run-counts}
use flag_it.Sdk.Cached.Readiness.{IsSettled, run-create-IsSettled}
use flag_it.Sdk.Cached.Promises.{resolutions, asked, count, run-promises, update-settles}

abbrev two_chunks : List Text
two_chunks = (codes "event: put" ++ newline ∷ codes "data: {}") ∷ (newline ∷ newline ∷ []) ∷ []

read_two_chunks : read_event_stream two_chunks ≡ codes "{}" ∷ []
unfolding read_event_stream
read_two_chunks = refl

-- Two `data:` lines make one payload, and a comment line none.
read_lines :
    read_event_stream (
      (codes "data: a" ++ newline ∷ codes "data:b" ++ newline ∷ newline ∷ codes ": c")
      ∷ (newline ∷ newline ∷ [])
      ∷ [])
    ≡ (codes "a" ++ newline ∷ codes "b") ∷ []
unfolding read_event_stream
read_lines = refl

read_event_stream-put_event_example : read_event_stream two_chunks ≡ codes "{}" ∷ []
unfolding put_event
read_event_stream-put_event_example =
    read_event_stream-put_event (codes "{}" ∷ []) two_chunks ((omega arith, (λ e. cc)), tt) refl

read_event_stream_chunking_example :
    read_event_stream two_chunks ≡ read_event_stream (concat two_chunks ∷ [])
read_event_stream_chunking_example =
    read_event_stream_chunking two_chunks (concat two_chunks ∷ []) refl

drain_ends_example :
    (drain 5 (newline ∷ newline ∷ []) ≡ drain 2 (newline ∷ newline ∷ []))
    × (index_of_break (drain 5 (newline ∷ newline ∷ [])).1 ≡ none)
drain_ends_example = drain_ends 5 (newline ∷ newline ∷ []) (omega arith)

drain_stops : drain 0 (newline ∷ newline ∷ []) ≡ ([], newline ∷ newline ∷ [])
unfolding drain
drain_stops = refl

abbrev parts : List (Part ℕ)
parts =
    record { kind = "user"; key = "u1"; attributes = none }
    ∷ record { kind = "account"; key = "acme"; attributes = some (("tier", str "gold") ∷ []) }
    ∷ []

abbrev serving : Call ℕ → Reply ℕ
serving call = response 200 (some (obj (field "value" (bool true) end)))

variation-served_example :
    (bool_variation serving (codes "http://h/") "k" "f" [] false ≡ true)
    × (string_variation serving (codes "http://h/") "k" "f" [] "s" ≡ "s")
    × (number_variation serving (codes "http://h/") "k" "f" [] 3 ≡ 3)
    × (variation serving (codes "http://h/") "k" "f" [] null ≡ bool true)
unfolding lookup
variation-served_example =
    variation-served serving (codes "http://h/") "k" "f" [] (bool true) false "s" 3 null (
      serves (field "value" (bool true) end) (omega arith) (omega arith) (omega arith) (omega arith)
        refl refl)

abbrev failing : Call ℕ → Reply ℕ
failing call = rejected

variation-not_served_example :
    (bool_variation failing (codes "http://h/") "k" "f" [] false ≡ false)
    × (string_variation failing (codes "http://h/") "k" "f" [] "s" ≡ "s")
    × (number_variation failing (codes "http://h/") "k" "f" [] 3 ≡ 3)
    × (variation failing (codes "http://h/") "k" "f" [] null ≡ null)
variation-not_served_example =
    variation-not_served failing (codes "http://h/") "k" "f" [] false "s" 3 null (λ v h. elim h [ ])

-- A status of 204 has no body: the fallback.
no_body :
    bool_variation {N = ℕ} (λ call. response 204 none) (codes "http://h/") "k" "f" [] false ≡ false
unfolding bool_variation
no_body = refl

abbrev host : Host ℕ
host = record { parse = λ text. some (obj (field "flags" (obj end) end)); falsy = λ n. n == 0 }

abbrev down : Attempt
down = record {
  opened = false;
  chunks = [];
  broken = false;
  closed_in_attempt = false;
  closed_in_delay = false;
}

abbrev up : Attempt
up = record {
  opened = true;
  chunks = two_chunks;
  broken = false;
  closed_in_attempt = false;
  closed_in_delay = false;
}

abbrev stopped : Attempt
stopped = record down { closed_in_delay = true }

stream_runs :
    stream host (down ∷ down ∷ up ∷ stopped ∷ up ∷ [])
    ≡ error
      ∷ wait 1000
      ∷ error
      ∷ wait 2000
      ∷ Action.update (obj end)
      ∷ wait 1000
      ∷ error
      ∷ wait 2000
      ∷ []
unfolding stream
stream_runs = refl

stream-InBounds_example : All InBounds (stream host (down ∷ up ∷ []))
stream-InBounds_example = stream-InBounds host (down ∷ up ∷ [])

stream-outage_example : stream host (down ∷ down ∷ []) ≡ outage_from 0 2
stream-outage_example =
    stream-outage host (down ∷ down ∷ []) ((refl, refl, refl), ((refl, refl, refl), tt))

stream-closed_example : stream host (up ∷ stopped ∷ up ∷ []) ≡ stream host (up ∷ stopped ∷ [])
stream-closed_example = stream-closed host (up ∷ []) stopped (up ∷ []) [] (inr refl)

abbrev evaluation : Evaluation ℕ
evaluation = record { flag_key = "f"; value = bool true; variation = pos 0; reason = "OFF" }

abbrev history : List (Event ℕ)
history =
    waiting 7
    ∷ evaluating "f"
    ∷ updating (("f", evaluation) ∷ [])
    ∷ evaluating "f"
    ∷ evaluating "f"
    ∷ flushing
    ∷ evaluating "f"
    ∷ switching [] 8
    ∷ []

abbrev fresh : Client ℕ
fresh = create true 5000 []

-- Of the four evaluations the first finds no flag; two are sent, and one waits.
history_counts :
    (reported "f" (pos 0) (Cached.run true history fresh).1 ≡ 2)
    × (count_of "f" (pos 0) (Cached.run true history fresh).0.counts ≡ 1)
    × (resolutions 7 (Cached.run true history fresh).1 ≡ 1)
    × ((Cached.run true history fresh).0.ready_resolvers ≡ 8 ∷ [])
unfolding Cached.run reported count_of resolutions count create bump
history_counts = (refl, refl, refl, refl)

run-counts_example :
    reported "f" (pos 0) (Cached.run true history fresh).1
      + count_of "f" (pos 0) (Cached.run true history fresh).0.counts
    ≡ uses true "f" (pos 0) history fresh + count_of "f" (pos 0) fresh.counts
run-counts_example = run-counts true "f" (pos 0) history fresh

run-create-IsSettled_example : IsSettled (Cached.run true history fresh).0
run-create-IsSettled_example = run-create-IsSettled true 5000 [] history

run-promises_example :
    resolutions 8 (Cached.run true history fresh).1
      + count 8 (Cached.run true history fresh).0.ready_resolvers
    ≡ asked 8 history + count 8 fresh.ready_resolvers
run-promises_example = run-promises true 8 history fresh

update-settles_example :
    let c = (Cached.run true history fresh).0 in
    let (c', effects) = step true (updating []) c in
    (c'.store ≡ [])
    × (c'.ready ≡ true)
    × (c'.ready_resolvers ≡ [])
    × (effects.resolved ≡ c.ready_resolvers)
    × (effects.notified ≡ c.listeners)
update-settles_example = update-settles true 5000 [] history []
