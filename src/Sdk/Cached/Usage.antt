-- ===== src/Sdk/Cached/Usage.antt =====
-- The buffered usage of the cached client: a map from flag keys to maps from variations to counts.
use flag_it.Common.{
  ℕ, ◌+◌, ◌≡◌, refl, Option, none, some, String, List, [], ◌∷◌, arith, if◌then◌else◌, ℤ, int_eq,
  int_eq_iff, str_eq, eq_iff, ◌&&◌,
}
use flag_it.Sdk.Json.{lookup, assign, lookup-assign}

-- `Map<number, number>`, in insertion order.
abbrev pub ByVariation : Type 0
ByVariation = List (ℤ × ℕ)

abbrev pub Counts : Type 0
Counts = List (String × ByVariation)

-- `byVariation.get(variation) ?? 0`
unfoldable pub get_count : ℤ → ByVariation → ℕ
get_count v [] = 0
get_count v ((w, n) ∷ by) = if int_eq w v then n else get_count v by

-- `byVariation.set(variation, count)`
unfoldable pub set_count : ℤ → ℕ → ByVariation → ByVariation
set_count v n [] = (v, n) ∷ []
set_count v n ((w, m) ∷ by) = if int_eq w v then (v, n) ∷ by else (w, m) ∷ set_count v n by

abbrev pub or_new : Option ByVariation → ByVariation
or_new none = []
or_new (some by) = by

-- The body of `record`: the map of the flag is made if it is not there, and the count goes up.
unfoldable pub bump : String → ℤ → Counts → Counts
unfolding get_count set_count lookup assign
bump flag_key v counts =
    let by = or_new (lookup flag_key counts) in
    assign flag_key (set_count v (get_count v by + 1) by) counts

-- How often the variation of the flag is counted.
unfoldable pub count_of : String → ℤ → Counts → ℕ
unfolding get_count lookup
count_of flag_key v counts = get_count v (or_new (lookup flag_key counts))

get_count-set_count :
    (v w : ℤ) (n : ℕ) (by : ByVariation)
    → get_count w (set_count v n by) ≡ (if int_eq v w then n else get_count w by)
unfolding get_count set_count
get_count-set_count v w n [] = refl
get_count-set_count v w n ((u, m) ∷ by) =
    ground (arith, int_eq_iff v w, int_eq_iff u v, int_eq_iff u w, get_count-set_count v w n by)

-- One use more of one variation of one flag, and nothing else.
pub count_of-bump :
    (k j : String) (v w : ℤ) (counts : Counts)
    → count_of j w (bump k v counts)
      ≡ count_of j w counts + (if str_eq k j && int_eq v w then 1 else 0)
unfolding count_of bump
count_of-bump k j v w counts = rw lookup-assign (
    ground (
      arith,
      eq_iff k j,
      int_eq_iff v w,
      get_count-set_count v w (get_count v (or_new (lookup k counts)) + 1)
          (or_new (lookup k counts)),
    ))

pub count_of-empty : (k : String) (v : ℤ) → count_of k v [] ≡ 0
unfolding count_of
count_of-empty k v = refl
