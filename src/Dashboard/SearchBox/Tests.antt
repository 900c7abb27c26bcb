-- ===== src/Dashboard/SearchBox/Tests.antt =====
-- Typing into the search box.
use flag_it.Common.{List, [], ◌∷◌, ◌≡◌, refl}
use flag_it.Dashboard.SearchBox.{SearchEvent, types, passes, mounted, set_query, step, run}
use flag_it.Dashboard.SearchBox.Laws.{spans, last_long, run-last_long}

-- The first text is left for long enough, the second is not.
abbrev typing : List SearchEvent
typing =
    types "da" ∷ passes 100 ∷ types "dark" ∷ passes 240 ∷ passes 20 ∷ types "x" ∷ passes 200 ∷ []

typing_test : (run typing mounted).search ≡ "dark"
unfolding run step set_query
typing_test = refl

run-last_long_example : (run typing mounted).search ≡ last_long "" (spans "" 0 typing)
run-last_long_example = run-last_long typing
