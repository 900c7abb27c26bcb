-- ===== src/Sdk/Cached/Accounting.antt =====
-- Each evaluation is counted once, and each count is sent once.
use flag_it.Common.{
  ℕ, ◌+◌, ◌≡◌, Bool, false, Option, none, some, String, List, [], ◌∷◌, arith, if◌then◌else◌, ℤ,
  int_eq, str_eq, ◌&&◌, Option-cases, inl, inr,
}
use flag_it.Sdk.Json.{lookup}
use flag_it.Sdk.Cached.{
  Evaluation, Client, Effects, Event, evaluating, flushing, waiting, closing, step, run, read,
  flush, close, close_handle,
}
use flag_it.Sdk.Cached.Usage.{Counts, count_of, count_of-bump, count_of-empty}

abbrev pub count_sent : String → ℤ → Option Counts → ℕ
count_sent k v none = 0
count_sent k v (some counts) = count_of k v counts

-- How often a variation of a flag is counted in the summaries that are sent.
unfoldable pub reported : String → ℤ → List Effects → ℕ
reported k v [] = 0
reported k v (e ∷ effects) = count_sent k v e.sent + reported k v effects

module _ {N : Type 0} (track_events : Bool) where
  abbrev pub is_served : ℤ → Option (Evaluation N) → Bool
  is_served v none = false
  is_served v (some ev) = int_eq ev.variation v

  -- The event evaluates the flag `k`, and the client, which tracks usage, serves the variation `v`.
  abbrev pub counts_use : String → ℤ → Event N → Client N → ℕ
  counts_use k v (evaluating flag_key) c =
      if track_events && (str_eq flag_key k && is_served v (lookup flag_key c.store)) then 1 else 0
  counts_use k v _ c = 0

  -- How often the flag `k` is evaluated to the variation `v`, over a history of the client.
  unfoldable pub uses : String → ℤ → List (Event N) → Client N → ℕ
  uses k v [] c = 0
  uses k v (e ∷ events) c = counts_use k v e c + uses k v events (step track_events e c).0

  flush-counts :
      (k : String) (v : ℤ) (c : Client N)
      → count_sent k v (flush c).1.sent + count_of k v (flush c).0.counts ≡ count_of k v c.counts
  unfolding flush
  flush-counts k v c = ground (arith, count_of-empty k v)

  read-counts :
      (k flag_key : String) (v : ℤ) (c : Client N)
      → count_of k v (read track_events flag_key c).0.counts
        ≡ counts_use k v (evaluating flag_key) c + count_of k v c.counts
  unfolding read
  read-counts k flag_key v c = elim (Option-cases (lookup flag_key c.store)) [
    | inl missing ↦ rw missing (ground arith)
    | inr (ev, found) ↦ rw found (ground (arith, count_of-bump flag_key k ev.variation v c.counts))
  ]

  close-counts :
      (k : String) (v : ℤ) (c : Client N)
      → count_sent k v (close c).1.sent + count_of k v (close c).0.counts ≡ count_of k v c.counts
  unfolding close
  close-counts k v c = flush-counts k v (record (close_handle c) { timer = false })

  step-counts :
      (k : String) (v : ℤ) (e : Event N) (c : Client N)
      → count_sent k v (step track_events e c).1.sent
          + count_of k v (step track_events e c).0.counts
        ≡ counts_use k v e c + count_of k v c.counts
  unfolding step
  step-counts k v (evaluating flag_key) c = omega (arith, read-counts k flag_key v c)
  step-counts k v flushing c = omega (arith, flush-counts k v c)
  step-counts k v closing c = omega (arith, close-counts k v c)
  step-counts k v (waiting id) c = ground arith
  step-counts k v _ c = omega arith

  -- Over every history of the client, the uses of a variation that the summaries report and those
  -- that are still counted are together those that were counted at first and those made since. So
  -- nothing is lost on the way into a summary and nothing is reported twice.
  pub run-counts :
      (k : String) (v : ℤ) (events : List (Event N)) (c : Client N)
      → reported k v (run track_events events c).1
          + count_of k v (run track_events events c).0.counts
        ≡ uses k v events c + count_of k v c.counts
  unfolding run reported uses
  run-counts k v [] c = omega arith
  run-counts k v (e ∷ events) c =
      omega (arith, step-counts k v e c, run-counts k v events (step track_events e c).0)
