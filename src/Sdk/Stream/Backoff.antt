-- ===== src/Sdk/Stream/Backoff.antt =====
-- The delays between two attempts.
use native.Mathlib.Nat.{pow-suc}
use flag_it.Common.{
  ℕ, zero, suc, ◌*◌, ◌^◌, ◌≤◌, ◌≡◌, refl, min, true, false, Option, none, some, List, [], ◌∷◌, ◌++◌,
  arith, All, if◌then◌else◌, Bool-cases, inl, inr, length, Text,
}
use flag_it.Sdk.Json.{Json, Host, truthy}
use flag_it.Sdk.Sse.{read_event_stream}
use flag_it.Sdk.Stream.{
  Attempt, Action, error, wait, run, stream, updates_of, on_all_data, on_data, update_if,
  parsed_flags, current_backoff, after_attempt, next_backoff,
}

module _ {N : Type 0} where
  -- The action is no delay, or a delay of one second at least and thirty at most.
  abbrev pub InBounds : Action N → Type 0
  InBounds (wait ms) = (1000 ≤ ms) × (ms ≤ 30000)
  InBounds _ = Unit

  All-append :
      (P : Action N → Type 0) (xs ys : List (Action N)) → All P xs → All P ys → All P (xs ++ ys)
  All-append P [] ys h k = k
  All-append P (x ∷ xs) ys h k = (h.0, All-append P xs ys h.1 k)

  -- Neither the outage nor its end is seen by the caller but through `onError`: the actions of a
  -- loop whose next delay is that of the `i`-th failure, over `n` failures.
  unfoldable pub outage_from : ℕ → ℕ → List (Action N)
  outage_from i zero = []
  outage_from i (suc n) = error ∷ wait (min (1000 * 2 ^ i) 30000) ∷ outage_from (suc i) n

next_of_power : (i : ℕ) → next_backoff (min (1000 * 2 ^ i) 30000) ≡ min (1000 * 2 ^ suc i) 30000
next_of_power i = rw pow-suc (omega arith)

next_backoff_low : (b : ℕ) → 1000 ≤ b → 1000 ≤ next_backoff b
next_backoff_low b h = omega arith

next_backoff_high : (b : ℕ) → next_backoff b ≤ 30000
next_backoff_high b = omega arith

module _ {N : Type 0} (host : Host N) where
  update_if-InBounds : (o : Option (Json N)) → All InBounds (update_if host o)
  update_if-InBounds none = tt
  update_if-InBounds (some flags) = elim (Bool-cases (truthy host flags)) [
    | inl shown ↦ rw shown (tt, tt)
    | inr skipped ↦ rw skipped tt
  ]

  on_all_data-InBounds : (payloads : List Text) → All InBounds (on_all_data host payloads)
  unfolding on_all_data
  on_all_data-InBounds [] = tt
  on_all_data-InBounds (p ∷ ps) =
      All-append InBounds (on_data host p) (on_all_data host ps)
        (unfold on_data in update_if-InBounds (parsed_flags host (host.parse p)))
        (on_all_data-InBounds ps)

  updates_of-InBounds : (a : Attempt) → All InBounds (updates_of host a)
  unfolding updates_of
  updates_of-InBounds a = elim (Bool-cases a.opened) [
    | inl opened ↦ rw opened (on_all_data-InBounds (read_event_stream a.chunks))
    | inr shut ↦ rw shut tt
  ]

  current_backoff_bounds :
      (backoff : ℕ) (a : Attempt)
      → 1000 ≤ backoff
      → backoff ≤ 30000
      → (1000 ≤ current_backoff host backoff a) × (current_backoff host backoff a ≤ 30000)
  unfolding current_backoff
  current_backoff_bounds backoff a low high = ground arith

  after_attempt-InBounds :
      (current : ℕ) (a : Attempt) (again : List (Action N))
      → 1000 ≤ current
      → current ≤ 30000
      → All InBounds again
      → All InBounds (after_attempt host current a again)
  unfolding after_attempt
  after_attempt-InBounds current a again low high h = ground arith

  run-InBounds :
      (backoff : ℕ) (attempts : List Attempt)
      → 1000 ≤ backoff
      → backoff ≤ 30000
      → All InBounds (run host backoff attempts)
  unfolding run
  run-InBounds backoff [] low high = tt
  run-InBounds backoff (a ∷ attempts) low high =
      let (low', high') = current_backoff_bounds backoff a low high in
      All-append InBounds (updates_of host a) _ (updates_of-InBounds a) (
        after_attempt-InBounds _ a _ low' high' (
          run-InBounds (next_backoff (current_backoff host backoff a)) attempts
            (next_backoff_low _ low') (next_backoff_high _)))

  -- Every delay of the loop is between one second and thirty.
  pub stream-InBounds : (attempts : List Attempt) → All InBounds (stream host attempts)
  unfolding stream
  stream-InBounds attempts = run-InBounds 1000 attempts (omega arith) (omega arith)

  -- The attempt finds the service down, and `close` is not called.
  abbrev pub IsDown : Attempt → Type 0
  IsDown a = (a.opened ≡ false) × (a.closed_in_attempt ≡ false) × (a.closed_in_delay ≡ false)

  run-outage :
      (i : ℕ) (attempts : List Attempt)
      → All IsDown attempts
      → run host (min (1000 * 2 ^ i) 30000) attempts ≡ outage_from i (length attempts)
  unfolding run outage_from
  run-outage i [] h = refl
  run-outage i (a ∷ attempts) ((down, live, patient), h) =
      let ih = run-outage (suc i) attempts h in rw (down, live, patient, next_of_power i, ih)

  -- While the service is down, each attempt is reported by one call of `onError`, and the delays
  -- are 1, 2, 4, 8 and 16 seconds, then 30 seconds each.
  pub stream-outage :
      (attempts : List Attempt)
      → All IsDown attempts
      → stream host attempts ≡ outage_from 0 (length attempts)
  unfolding stream
  stream-outage attempts h = run-outage 0 attempts h

  -- After a stream that was open, whatever the backoff before it, the delays start again at one
  -- second: the loop hands on the updates, reports the error that broke the stream if one did, waits
  -- a second, and meets an outage like a fresh loop after its first failure.
  pub run-reopened :
      (backoff : ℕ) (a : Attempt) (attempts : List Attempt)
      → a.opened ≡ true
      → a.closed_in_attempt ≡ false
      → a.closed_in_delay ≡ false
      → All IsDown attempts
      → run host backoff (a ∷ attempts)
        ≡ updates_of host a
          ++ ((if a.broken then error ∷ [] else []) ++ wait 1000 ∷ outage_from 1 (length attempts))
  unfolding run
  run-reopened backoff a attempts opened live patient h =
      rw (opened, live, patient, run-outage 1 attempts h)
        (elim (Bool-cases a.broken) [ inl broken ↦ rw broken | inr whole ↦ rw whole ])
