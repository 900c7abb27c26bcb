-- ===== src/Sdk/Cached/Promises.antt =====
-- The promises of `waitForInitialization` and `identify`: each is resolved once, and by the next
-- snapshot at the latest.
use flag_it.Common.{ℕ, ◌+◌, ◌≡◌, refl, Bool, true, List, [], ◌∷◌, ◌++◌, arith, if◌then◌else◌, ◌==◌}
use flag_it.Sdk.Context.{EvalContext}
use flag_it.Sdk.Cached.{
  Store, Client, Effects, Event, evaluating, updating, flushing, waiting, switching, closing, step,
  run, create,
}
use flag_it.Sdk.Cached.Readiness.{run-create-IsSettled}

unfoldable pub count : ℕ → List ℕ → ℕ
count id [] = 0
count id (j ∷ ids) = (if j == id then 1 else 0) + count id ids

count-append : (id : ℕ) (xs ys : List ℕ) → count id (xs ++ ys) ≡ count id xs + count id ys
unfolding count
count-append id [] ys = omega arith
count-append id (x ∷ xs) ys = omega (arith, count-append id xs ys)

-- How often the promise is resolved.
unfoldable pub resolutions : ℕ → List Effects → ℕ
resolutions id [] = 0
resolutions id (e ∷ effects) = count id e.resolved + resolutions id effects

module _ {N : Type 0} where
  -- The event makes the promise `id`.
  abbrev pub asks : ℕ → Event N → ℕ
  asks id (waiting j) = if j == id then 1 else 0
  asks id (switching context j) = if j == id then 1 else 0
  asks id _ = 0

  unfoldable pub asked : ℕ → List (Event N) → ℕ
  asked id [] = 0
  asked id (e ∷ events) = asks id e + asked id events

module _ {N : Type 0} (track_events : Bool) where
  step-promises :
      (id : ℕ) (e : Event N) (c : Client N)
      → count id (step track_events e c).1.resolved
          + count id (step track_events e c).0.ready_resolvers
        ≡ asks id e + count id c.ready_resolvers
  unfolding step count
  step-promises id (evaluating k) c = ground arith
  step-promises id (updating flags) c = ground arith
  step-promises id flushing c = ground arith
  step-promises id closing c = ground arith
  step-promises id (waiting j) c = ground (arith, count-append id c.ready_resolvers (j ∷ []))
  step-promises id (switching context j) c =
      omega (arith, count-append id c.ready_resolvers (j ∷ []))
  step-promises id _ c = omega arith

  -- A promise is resolved, or still held, as often as it was made: none is resolved twice, and none
  -- is forgotten.
  pub run-promises :
      (id : ℕ) (events : List (Event N)) (c : Client N)
      → resolutions id (run track_events events c).1
          + count id (run track_events events c).0.ready_resolvers
        ≡ asked id events + count id c.ready_resolvers
  unfolding run resolutions asked
  run-promises id [] c = omega arith
  run-promises id (e ∷ events) c =
      omega (arith, step-promises id e c, run-promises id events (step track_events e c).0)

  -- In any history, a snapshot makes the client ready with the flags that it brings, calls every
  -- listener, and leaves no promise held back: those that were held are resolved, in order.
  pub update-settles :
      (interval : ℕ) (context : EvalContext N) (events : List (Event N)) (flags : Store N)
      → let c = (run track_events events (create track_events interval context)).0 in
        let (c', effects) = step track_events (updating flags) c in
        (c'.store ≡ flags)
        × (c'.ready ≡ true)
        × (c'.ready_resolvers ≡ [])
        × (effects.resolved ≡ c.ready_resolvers)
        × (effects.notified ≡ c.listeners)
  unfolding step
  update-settles interval context events flags =
      let h = run-create-IsSettled track_events interval context events in
      (refl, refl, ground (arith, h.settled), ground (arith, h.settled), refl)
