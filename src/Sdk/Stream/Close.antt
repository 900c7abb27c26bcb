-- ===== src/Sdk/Stream/Close.antt =====
-- After `close` the loop does nothing more, and what it hands on until then.
use flag_it.Common.{
  ℕ, suc, ◌+◌, ◌≡◌, refl, ap, ◌⊎◌, Bool, true, Option, none, some, List, [], ◌∷◌, ◌++◌, arith,
  if◌then◌else◌, Bool-cases, inl, inr, Text, ◌||◌, ◌&&◌, not,
}
use flag_it.Sdk.Json.{Json, Host}
use flag_it.Sdk.Sse.{read_event_stream}
use flag_it.Sdk.Stream.{
  Attempt, Action, update, error, wait, run, stream, updates_of, on_all_data, on_data, update_if,
  parsed_flags, current_backoff, after_attempt, next_backoff, failed,
}

module _ {N : Type 0} where
  -- What `onUpdate` is called with, in order.
  unfoldable pub shown : List (Action N) → List (Json N)
  shown [] = []
  shown (update flags ∷ actions) = flags ∷ shown actions
  shown (_ ∷ actions) = shown actions

  -- How often `onError` is called.
  unfoldable pub errors : List (Action N) → ℕ
  errors [] = 0
  errors (error ∷ actions) = suc (errors actions)
  errors (_ ∷ actions) = errors actions

no_errors : (N : Type 0) → errors {N = N} [] ≡ 0
unfolding errors
no_errors N = refl

module _ {N : Type 0} (host : Host N) where
  after_closed :
      (current : ℕ) (a : Attempt) (x y : List (Action N))
      → (a.closed_in_attempt ≡ true) ⊎ (a.closed_in_delay ≡ true)
      → after_attempt host current a x ≡ after_attempt host current a y
  unfolding after_attempt
  after_closed current a x y h = ground arith

  run-closed :
      (backoff : ℕ) (before : List Attempt) (a : Attempt) (after other : List Attempt)
      → (a.closed_in_attempt ≡ true) ⊎ (a.closed_in_delay ≡ true)
      → run host backoff (before ++ a ∷ after) ≡ run host backoff (before ++ a ∷ other)
  unfolding run
  run-closed backoff [] a after other h = ap (λ r. updates_of host a ++ r) (after_closed _ a _ _ h)
  run-closed backoff (b ∷ before) a after other h =
      ap (λ r. updates_of host b ++ after_attempt host (current_backoff host backoff b) b r)
        (run-closed (next_backoff (current_backoff host backoff b)) before a after other h)

  -- Once `close` has been called in an attempt or in the delay after it, no later attempt is made:
  -- whatever would come later, the actions are the same.
  pub stream-closed :
      (before : List Attempt) (a : Attempt) (after other : List Attempt)
      → (a.closed_in_attempt ≡ true) ⊎ (a.closed_in_delay ≡ true)
      → stream host (before ++ a ∷ after) ≡ stream host (before ++ a ∷ other)
  unfolding stream
  stream-closed before a after other h = run-closed 1000 before a after other h

  -- The attempts that are made: up to the first in which, or after which, `close` is called.
  unfoldable pub made : List Attempt → List Attempt
  made [] = []
  made (a ∷ attempts) = a ∷ (if a.closed_in_attempt || a.closed_in_delay then [] else made attempts)

  -- `onError` is called after the attempt.
  abbrev pub is_reported : Attempt → Bool
  is_reported a = failed host a && not a.closed_in_attempt

  unfoldable pub count_reported : List Attempt → ℕ
  count_reported [] = 0
  count_reported (a ∷ attempts) = (if is_reported a then 1 else 0) + count_reported attempts

  unfoldable pub all_updates : List Attempt → List (Action N)
  all_updates [] = []
  all_updates (a ∷ attempts) = updates_of host a ++ all_updates attempts

  shown-append : (xs ys : List (Action N)) → shown (xs ++ ys) ≡ shown xs ++ shown ys
  unfolding shown
  shown-append [] ys = refl
  shown-append (update flags ∷ xs) ys = ap (λ r. flags ∷ r) (shown-append xs ys)
  shown-append (error ∷ xs) ys = shown-append xs ys
  shown-append (wait ms ∷ xs) ys = shown-append xs ys

  errors-append : (xs ys : List (Action N)) → errors (xs ++ ys) ≡ errors xs + errors ys
  unfolding errors
  errors-append [] ys = omega arith
  errors-append (update flags ∷ xs) ys = errors-append xs ys
  errors-append (error ∷ xs) ys = omega (arith, errors-append xs ys)
  errors-append (wait ms ∷ xs) ys = errors-append xs ys

  errors-update_if : (o : Option (Json N)) → errors (update_if host o) ≡ 0
  unfolding errors
  errors-update_if none = refl
  errors-update_if (some flags) = ground arith

  errors-on_all_data : (payloads : List Text) → errors (on_all_data host payloads) ≡ 0
  unfolding on_all_data errors on_data
  errors-on_all_data [] = refl
  errors-on_all_data (p ∷ ps) = omega (
    arith,
    errors-append (on_data host p) (on_all_data host ps),
    errors-update_if (parsed_flags host (host.parse p)),
    errors-on_all_data ps,
  )

  errors-updates_of : (a : Attempt) → errors (updates_of host a) ≡ 0
  errors-updates_of a =
      unfold updates_of errors in
      elim (Bool-cases a.opened) [
        | inl opened ↦ rw opened (errors-on_all_data (read_event_stream a.chunks))
        | inr shut ↦ rw shut
      ]

  shown-after_attempt :
      (current : ℕ) (a : Attempt) (again : List (Action N))
      → shown (after_attempt host current a again)
        ≡ (if a.closed_in_attempt || a.closed_in_delay then [] else shown again)
  unfolding after_attempt shown
  shown-after_attempt current a again = ground arith

  errors-after_attempt :
      (current : ℕ) (a : Attempt) (again : List (Action N))
      → errors (after_attempt host current a again)
        ≡ (if is_reported a then 1 else 0)
          + (if a.closed_in_attempt || a.closed_in_delay then 0 else errors again)
  unfolding after_attempt errors
  errors-after_attempt current a again = ground arith

  run-calls :
      (backoff : ℕ) (attempts : List Attempt)
      → (shown (run host backoff attempts) ≡ shown (all_updates (made attempts)))
        × (errors (run host backoff attempts) ≡ count_reported (made attempts))
  unfolding run made all_updates count_reported shown
  run-calls backoff [] = (refl, no_errors N)
  run-calls backoff (a ∷ attempts) =
      let current = current_backoff host backoff a in
      let again = run host (next_backoff current) attempts in
      let (ih, jh) = run-calls (next_backoff current) attempts in
      (
        ground (
          arith,
          shown-append (updates_of host a) (after_attempt host current a again),
          shown-append (updates_of host a) (
              all_updates (if a.closed_in_attempt || a.closed_in_delay then [] else made attempts)),
          shown-after_attempt current a again,
          ih,
        ),
        ground (
          arith,
          errors-append (updates_of host a) (after_attempt host current a again),
          errors-updates_of a,
          errors-after_attempt current a again,
          jh,
        ),
      )

  -- `onUpdate` is called with the flag maps of the attempts that are made, in order, and `onError`
  -- once for each of these that failed before `close`.
  pub stream-calls :
      (attempts : List Attempt)
      → (shown (stream host attempts) ≡ shown (all_updates (made attempts)))
        × (errors (stream host attempts) ≡ count_reported (made attempts))
  unfolding stream
  stream-calls attempts = run-calls 1000 attempts
