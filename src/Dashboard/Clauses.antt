-- ===== src/Dashboard/Clauses.antt =====
-- The values of clauses as text, web/src/lib/clauses.ts. `JSON.parse` and `JSON.stringify` are the
-- fields of `JsonText`; none is a SyntaxError.
pub mod Laws
mod Tests
use Prim.Native.Char.{code}
use Prim.Native.String
use flag_it.Common.{
  ℕ, Bool, true, false, not, Option, none, some, String, List, [], ◌∷◌, ◌==◌, map, filterb, str_eq,
  if◌then◌else◌,
}
use flag_it.Sdk.Json.{Json, null, bool, num, str, arr, obj, lookup}
use flag_it.Flags.{Clause}
use flag_it.Dashboard.Api.{◌<>◌}
use flag_it.Dashboard.Trim.{trim}

pub record JsonText (N : Type 0) : Type 0 where
  pub parse : String → Option (Json N)
  pub stringify : Json N → String

-- `CLAUSE_OPERATORS`: the operators with their labels.
abbrev pub clause_operators : List (String × String)
clause_operators =
    ("in", "is one of")
    ∷ ("startsWith", "starts with")
    ∷ ("endsWith", "ends with")
    ∷ ("contains", "contains")
    ∷ ("matches", "matches regex")
    ∷ ("lessThan", "less than")
    ∷ ("lessThanOrEqual", "less than or equal")
    ∷ ("greaterThan", "greater than")
    ∷ ("greaterThanOrEqual", "greater than or equal")
    ∷ ("before", "before (date)")
    ∷ ("after", "after (date)")
    ∷ ("semVerEqual", "semver equals")
    ∷ ("semVerLessThan", "semver less than")
    ∷ ("semVerGreaterThan", "semver greater than")
    ∷ ("segmentMatch", "is in segment")
    ∷ []

abbrev pub push : String → List String → List String
push s [] = s ∷ []
push s (x ∷ xs) = (s <> x) ∷ xs

-- `input.split(',')`
unfoldable pub split_commas : String → List String
split_commas String.[] = "" ∷ []
split_commas (String.◌∷◌ c s) =
    let rest = split_commas s in
    if code c == 44 then "" ∷ rest else push (String.◌∷◌ c String.[]) rest

-- `texts.join(', ')`
abbrev pub join_commas : List String → String
join_commas [] = ""
join_commas (t ∷ []) = t
join_commas (t ∷ u ∷ ts) = t <> ", " <> join_commas (u ∷ ts)

-- `?? otherwise`
abbrev pub or_else : Option String → String → String
or_else none otherwise = otherwise
or_else (some s) otherwise = s

module _ {N : Type 0} (texts : JsonText N) where
  -- Numbers and booleans are taken, everything else stays the text.
  abbrev pub taken : String → Option (Json N) → Json N
  taken t (some (num n)) = num n
  taken t (some (bool b)) = bool b
  taken t _ = str t

  abbrev pub coerce_value : String → Json N
  coerce_value input = let t = trim input in taken t (texts.parse t)

  unfoldable pub parse_values : String → List (Json N)
  unfolding split_commas
  parse_values input =
      map coerce_value (filterb (λ v. not (str_eq v "")) (map trim (split_commas input)))

  abbrev pub shown : Json N → String
  shown (str s) = s
  shown v = texts.stringify v

  unfoldable pub display_values : List (Json N) → String
  display_values values = join_commas (map shown values)

  -- `clause.attribute ? … : 'segment'`
  abbrev pub subject : Option String → Option String → String
  subject context_kind none = "segment"
  subject context_kind (some attribute) =
      if str_eq attribute "" then "segment" else or_else context_kind "user" <> "." <> attribute

  abbrev pub negated : Option Bool → String → String
  negated (some true) label = "not (" <> label <> ")"
  negated _ label = label

  unfoldable pub clause_text : Clause (Json N) → String
  unfolding display_values lookup
  clause_text clause =
      let label = or_else (lookup clause.op clause_operators) clause.op in
      subject clause.context_kind clause.attribute
      <> " "
      <> negated clause.negate label
      <> " ["
      <> display_values clause.values
      <> "]"
