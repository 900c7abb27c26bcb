-- ===== src/Dashboard/SearchBox.antt =====
-- The search box of web/src/features/flags/FlagsPage.tsx, which sends what is typed to the server after
-- a quarter of a second; the pages of segments, contexts and environments have the same code. An effect
-- that runs again clears the timer that it set before.
pub mod Laws
mod Tests
use flag_it.Common.{ℕ, ◌-◌, Option, none, some, String, List, [], ◌∷◌, str_eq, leb, if◌then◌else◌}

-- The state, and the milliseconds that are left of the timer. When it fires, it sets what was typed
-- when it was set, which is what is typed still.
pub record SearchBox : Type 0 where
  pub query : String
  pub search : String
  pub timer : Option ℕ

abbrev pub delay : ℕ
delay = 250

-- The first rendering, after which the effect runs.
abbrev pub mounted : SearchBox
mounted = record { query = ""; search = ""; timer = some delay }

pub data SearchEvent : Type 0 where
  types : String → SearchEvent
  passes : ℕ → SearchEvent

-- `setQuery`: the effect runs if the text is another.
unfoldable pub set_query : String → SearchBox → SearchBox
set_query v b =
    if str_eq v b.query then b else record { query = v; search = b.search; timer = some delay }

abbrev pub wait_for : Option ℕ → ℕ → SearchBox → SearchBox
wait_for none n b = b
wait_for (some k) n b =
    if leb k n
    then record b { search = b.query; timer = none }
    else record b { timer = some (k - n) }

unfoldable pub step : SearchEvent → SearchBox → SearchBox
unfolding set_query
step (types v) b = set_query v b
step (passes n) b = wait_for b.timer n b

unfoldable pub run : List SearchEvent → SearchBox → SearchBox
run [] b = b
run (e ∷ events) b = run events (step e b)
