-- ===== src/Dashboard/SearchBox/Laws.antt =====
-- What the search box sends: the last text that stood for the whole delay.
use flag_it.Common.{
  ℕ, ◌+◌, ◌-◌, ◌≤◌, ◌<◌, none, some, String, List, [], ◌∷◌, ◌≡◌, refl, sym, ap, ◌∙◌, str_eq, leb,
  leb_of, leb_not, if◌then◌else◌, true, false, Bool-cases, inl, inr, arith,
}
use flag_it.Dashboard.SearchBox.{
  SearchBox, SearchEvent, types, passes, delay, mounted, set_query, wait_for, step, run,
}

-- The texts that stood in the box in turn, each with the milliseconds that it stood, the first of
-- which has stood for `n` already.
unfoldable pub spans : String → ℕ → List SearchEvent → List (String × ℕ)
spans t n [] = (t, n) ∷ []
spans t n (passes m ∷ events) = spans t (n + m) events
spans t n (types v ∷ events) =
    let after = (t, n) ∷ spans v 0 events in
    let still = spans t n events in if str_eq v t then still else after

-- The last text that stood for the delay.
unfoldable pub last_long : String → List (String × ℕ) → String
last_long before [] = before
last_long before ((t, n) ∷ rest) = last_long (if leb delay n then t else before) rest

-- The timer has what is left of the delay, and once it has fired the text was sent.
pub data IsTimed (n : ℕ) (b : SearchBox) : Type 0 where
  runs : (k : ℕ) → b.timer ≡ some k → n + k ≡ delay → 0 < k → IsTimed n b
  fired : b.timer ≡ none → delay ≤ n → b.search ≡ b.query → IsTimed n b

-- A text that has stood for the delay is the answer, whatever was sent before.
last_long-spans_stood :
    (events : List SearchEvent) (before t : String) (n : ℕ)
    → delay ≤ n
    → last_long before (spans t n events) ≡ last_long t (spans t n events)
unfolding last_long spans
last_long-spans_stood [] before t n h = rw (leb_of delay n h) refl
last_long-spans_stood (passes m ∷ events) before t n h =
    last_long-spans_stood events before t (n + m) (omega arith)
last_long-spans_stood (types v ∷ events) before t n h = elim (Bool-cases (str_eq v t)) [
  | inl same ↦ rw same (last_long-spans_stood events before t n h)
  | inr other ↦ rw other (
      ap (λ c. last_long (if c then t else before) (spans v 0 events)) (leb_of delay n h)
      ∙ sym (ap (λ c. last_long (if c then t else t) (spans v 0 events)) (leb_of delay n h)))
]

set_query_same : (v : String) (b : SearchBox) → str_eq v b.query ≡ true → set_query v b ≡ b
unfolding set_query
set_query_same v b h =
    ap (λ c. if c then b else record { query = v; search = b.search; timer = some delay }) h

set_query_other :
    (v : String) (b : SearchBox)
    → str_eq v b.query ≡ false
    → set_query v b ≡ record { query = v; search = b.search; timer = some delay }
unfolding set_query
set_query_other v b h =
    ap (λ c. if c then b else record { query = v; search = b.search; timer = some delay }) h

wait_over :
    (m k : ℕ) (b : SearchBox)
    → b.timer ≡ some k
    → leb k m ≡ true
    → wait_for b.timer m b ≡ record b { search = b.query; timer = none }
wait_over m k b set h =
    ap (λ o. wait_for o m b) set
    ∙ ap
        (λ c.
          if c
          then record b { search = b.query; timer = none }
          else record b { timer = some (k - m) })
        h

wait_on :
    (m k : ℕ) (b : SearchBox)
    → b.timer ≡ some k
    → leb k m ≡ false
    → wait_for b.timer m b ≡ record b { timer = some (k - m) }
wait_on m k b set h =
    ap (λ o. wait_for o m b) set
    ∙ ap
        (λ c.
          if c
          then record b { search = b.query; timer = none }
          else record b { timer = some (k - m) })
        h

search-run :
    (events : List SearchEvent) (b : SearchBox) (n : ℕ)
    → IsTimed n b
    → (run events b).search ≡ last_long b.search (spans b.query n events)
unfolding run step spans last_long
search-run [] b n (runs k set left more) = rw (leb_not delay n (omega (arith, left, more))) refl
search-run [] b n (fired off stood sent) = rw (leb_of delay n stood) sent
search-run (passes m ∷ events) b n (fired off stood sent) =
    ap (λ o. (run events (wait_for o m b)).search) off
    ∙ search-run events b (n + m) (fired off (omega (arith, stood)) sent)
search-run (passes m ∷ events) b n (runs k set left more) = elim (Bool-cases (leb k m)) [
  | inl over ↦
      ap (λ c. (run events c).search) (wait_over m k b set over)
      ∙ (search-run events (record b { search = b.query; timer = none }) (n + m)
            (fired refl (ground arith) refl)
          ∙ sym (last_long-spans_stood events b.search b.query (n + m) (ground arith)))
  | inr waits ↦
      ap (λ c. (run events c).search) (wait_on m k b set waits)
      ∙ (search-run events (record b { timer = some (k - m) }) (n + m)
          (runs (k - m) refl (ground arith) (ground arith)))
]
search-run (types v ∷ events) b n timed = elim (Bool-cases (str_eq v b.query)) [
  | inl same ↦
      rw same
        (ap (λ c. (run events c).search) (set_query_same v b same) ∙ search-run events b n timed)
  | inr other ↦ rw other (
      ap (λ c. (run events c).search) (set_query_other v b other)
      ∙ search-run events (record { query = v; search = b.search; timer = some delay }) 0
          (runs delay refl refl (omega arith))
      ∙ ap (λ s. last_long s (spans v 0 events)) (kept n b timed))
]
  where
    kept :
        (n : ℕ) (b : SearchBox)
        → IsTimed n b
        → b.search ≡ (if leb delay n then b.query else b.search)
    kept n b (runs k set left more) = rw (leb_not delay n (omega (arith, left, more))) refl
    kept n b (fired off stood sent) = rw (leb_of delay n stood) sent

-- Whatever is typed and however time passes, what the box sends to the server is the last text that
-- stood in it for the whole delay, and the empty text before there is one.
pub run-last_long :
    (events : List SearchEvent) → (run events mounted).search ≡ last_long "" (spans "" 0 events)
run-last_long events = search-run events mounted 0 (runs delay refl refl (omega arith))
