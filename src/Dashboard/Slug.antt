-- ===== src/Dashboard/Slug.antt =====
-- `slugify`, of which the dialogs for flags, projects, environments, segments and roles and the setup
-- wizard have a copy each. `toLowerCase` is a parameter.
pub mod Laws
use Prim.Native.Char.{code}
use Prim.Native.String
use flag_it.Common.{ℕ, Bool, true, false, String, ◌==◌, ◌&&◌, ◌||◌, not, leb, if◌then◌else◌}
use flag_it.Dashboard.Trim.{trim}

-- `[a-z0-9]`
abbrev pub is_plain : ℕ → Bool
is_plain c = (leb 97 c && leb c 122) || (leb 48 c && leb c 57)

abbrev pub is_dash : ℕ → Bool
is_dash c = c == 45

abbrev pub starts_other : String → Bool
starts_other String.[] = false
starts_other (String.◌∷◌ c s) = not (is_plain (code c))

-- `.replace(/[^a-z0-9]+/g, '-')`: a run of other characters becomes one dash, at its end.
unfoldable pub dashes : String → String
dashes String.[] = String.[]
dashes (String.◌∷◌ c s) =
    let rest = dashes s in
    if is_plain (code c)
    then String.◌∷◌ c rest
    else if starts_other s
    then rest
    else String.◌∷◌ "-" rest

-- `.replace(/^-+|-+$/g, '')`
unfoldable pub strip_start : String → String
strip_start String.[] = String.[]
strip_start (String.◌∷◌ c s) =
    let rest = strip_start s in if is_dash (code c) then rest else String.◌∷◌ c s

abbrev pub is_blank : String → Bool
is_blank String.[] = true
is_blank (String.◌∷◌ c s) = false

unfoldable pub strip_end : String → String
strip_end String.[] = String.[]
strip_end (String.◌∷◌ c s) =
    let rest = strip_end s in
    if is_dash (code c) && is_blank rest then String.[] else String.◌∷◌ c rest

unfoldable pub slugify : (String → String) → String → String
unfolding dashes strip_start strip_end
slugify lower value = strip_end (strip_start (dashes (trim (lower value))))
