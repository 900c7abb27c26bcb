-- ===== src/Dashboard/Api/Paths.antt =====
-- How a server takes a path apart: at the slashes, up to the question mark.
use Prim.Native.Char.{code}
use text.Mathlib.TextLemmas.{nil-append, cons-append, append-nil, append_assoc}
use flag_it.Common.{
  neither, ℕ, Bool, false, String, List, [], ◌∷◌, ◌≡◌, refl, ap, ◌∙◌, ◌==◌, ◌||◌, All,
  if◌then◌else◌,
}
use flag_it.Dashboard.Api.{RequestPath, ◌<>◌}
use flag_it.Dashboard.Api.Request.{join_segments, join_query, query_text, path_text}

-- The texts between the slashes, the first of which stands before the first slash, and the rest.
pub record Parts : Type 0 where
  pub texts : List String
  pub rest : String

abbrev push : String → List String → List String
push s [] = s ∷ []
push s (x ∷ xs) = (s <> x) ∷ xs

abbrev is_slash : ℕ → Bool
is_slash c = c == 47

abbrev is_question : ℕ → Bool
is_question c = c == 63

unfoldable pub cut : String → Parts
cut String.[] = record { texts = "" ∷ []; rest = "" }
cut (String.◌∷◌ c s) =
    let parts = cut s in
    if is_question (code c)
    then record { texts = "" ∷ []; rest = String.◌∷◌ c s }
    else if is_slash (code c)
    then record parts { texts = "" ∷ parts.texts }
    else record parts { texts = push (String.◌∷◌ c String.[]) parts.texts }

-- No slash and no question mark.
abbrev pub IsClean : String → Type 0
IsClean String.[] = Unit
IsClean (String.◌∷◌ c s) = ((is_slash (code c) || is_question (code c)) ≡ false) × IsClean s

slash_first :
    (t x rest : String) (xs : List String)
    → cut t ≡ record { texts = x ∷ xs; rest = rest }
    → cut ("/" <> t) ≡ record { texts = "" ∷ x ∷ xs; rest = rest }
unfolding cut
slash_first t x rest xs e = rw (cons-append "/" "" t, nil-append t, e) refl

question_first : (t : String) → cut ("?" <> t) ≡ record { texts = "" ∷ []; rest = "?" <> t }
unfolding cut
question_first t = rw (cons-append "?" "" t) refl

cut-append :
    (s t x rest : String) (xs : List String)
    → IsClean s
    → cut t ≡ record { texts = x ∷ xs; rest = rest }
    → cut (s <> t) ≡ record { texts = (s <> x) ∷ xs; rest = rest }
unfolding cut
cut-append String.[] t x rest xs clean e = rw (nil-append t, nil-append x) e
cut-append (String.◌∷◌ c s) t x rest xs clean e =
    let (slash, question) = neither (is_slash (code c)) (is_question (code c)) clean.0 in
    rw
      (
        cons-append c s t,
        cons-append c s x,
        question,
        slash,
        cut-append s t x rest xs clean.1 e,
        cons-append c "" (s <> x),
        nil-append (s <> x),
      )
      refl

cut-query_text :
    (query : List (String × String))
    → cut (query_text query) ≡ record { texts = "" ∷ []; rest = query_text query }
unfolding cut
cut-query_text [] = refl
cut-query_text (p ∷ query) = question_first (join_query (p ∷ query))

cut-join_segments :
    (segments : List String) (query : List (String × String))
    → All IsClean segments
    → cut (join_segments segments <> query_text query)
      ≡ record { texts = "" ∷ segments; rest = query_text query }
cut-join_segments [] query clean = rw nil-append (cut-query_text query)
cut-join_segments (segment ∷ segments) query clean =
    let there = cut-join_segments segments query clean.1 in
    let after =
      cut-append segment (join_segments segments <> query_text query) "" (query_text query) segments
        clean.0 there in
    ap cut (
      append_assoc "/" (segment <> join_segments segments) (query_text query)
      ∙ ap (λ t. "/" <> t) (append_assoc segment (join_segments segments) (query_text query)))
    ∙ slash_first (segment <> (join_segments segments <> query_text query)) (segment <> "")
        (query_text query) segments after
    ∙ ap (λ s. record { texts = "" ∷ s ∷ segments; rest = query_text query }) (append-nil segment)

-- A server that takes the path of a call apart at the slashes, up to the question mark, finds the texts
-- that the endpoint put between the slashes, and the query string behind them, if no text has a
-- slash or a question mark in it.
pub cut-path_text :
    (p : RequestPath)
    → All IsClean p.segments
    → cut (path_text p) ≡ record { texts = "" ∷ p.segments; rest = query_text p.query }
unfolding path_text
cut-path_text p clean = cut-join_segments p.segments p.query clean
