-- ===== src/Backend/Targets.antt =====
-- Individual targets, as `applyInstructions` of web/src/mocks/handlers.ts edits them.
pub mod Laws
pub mod Names
use flag_it.Common.{
  ℕ, Bool, true, false, Option, none, some, String, List, [], ◌∷◌, ◌++◌, not, ◌&&◌, ◌||◌, ◌==◌,
  str_eq, if◌then◌else◌, filterb, any,
}
use flag_it.Flags.{Target}

-- `xs.includes(x)`
unfoldable pub includes : List String → String → Bool
includes [] x = false
includes (y ∷ ys) x = str_eq y x || includes ys x

-- `x.variation === ins.variation && x.contextKind === kind`
abbrev pub is_target : String → ℕ → Target → Bool
is_target kind variation t = t.variation == variation && str_eq t.context_kind kind

-- `for (const v of ins.values) if (!t.values.includes(v)) t.values.push(v)`
unfoldable pub add_values : List String → List String → List String
unfolding includes
add_values values [] = values
add_values values (v ∷ vs) = add_values (if includes values v then values else values ++ v ∷ []) vs

-- The target that `find` gives is edited in place; if there is none, a new one is pushed.
unfoldable pub add_targets : String → ℕ → List String → List Target → List Target
unfolding add_values
add_targets kind variation vs [] =
    record { context_kind = kind; values = add_values [] vs; variation = variation } ∷ []
add_targets kind variation vs (t ∷ ts) =
    let rest = add_targets kind variation vs ts in
    if is_target kind variation t
    then record t { values = add_values t.values vs } ∷ ts
    else t ∷ rest

-- `t.values.filter((v) => !ins.values!.includes(v))`
unfoldable pub remove_values : List String → List String → List String
unfolding includes
remove_values vs values = filterb (λ v. not (includes vs v)) values

-- The target that `find` gives loses the values.
unfoldable pub remove_from_first : String → ℕ → List String → List Target → List Target
unfolding remove_values
remove_from_first kind variation vs [] = []
remove_from_first kind variation vs (t ∷ ts) =
    let rest = remove_from_first kind variation vs ts in
    if is_target kind variation t
    then record t { values = remove_values vs t.values } ∷ ts
    else t ∷ rest

abbrev pub is_nonempty : List String → Bool
is_nonempty [] = false
is_nonempty (v ∷ vs) = true

unfoldable pub remove_targets : String → ℕ → List String → List Target → List Target
unfolding remove_from_first
remove_targets kind variation vs ts =
    filterb (λ t. is_nonempty t.values) (remove_from_first kind variation vs ts)
