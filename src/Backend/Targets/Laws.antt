-- ===== src/Backend/Targets/Laws.antt =====
-- What adding and removing individual targets does to the keys that are targeted.
use flag_it.Common.{
  ℕ, Bool, true, false, String, List, [], ◌∷◌, ◌++◌, not, ◌&&◌, ◌||◌, ◌==◌, ◌≡◌, refl, arith,
  str_eq, eq_iff, if◌then◌else◌, filterb, any, ◌∙◌, filterb-keep, filterb-drop, Bool-cases, inl,
  inr,
}
use flag_it.Flags.{Target}
use flag_it.Backend.Targets.{
  includes, is_target, add_values, add_targets, remove_values, remove_from_first, is_nonempty,
  remove_targets,
}

-- The context key `x` of the kind is served the variation by an individual target.
unfoldable pub targeted : String → ℕ → String → List Target → Bool
unfolding includes
targeted kind variation x [] = false
targeted kind variation x (t ∷ ts) =
    (is_target kind variation t && includes t.values x) || targeted kind variation x ts

pub includes-append :
    (xs ys : List String) (x : String) → includes (xs ++ ys) x ≡ (includes xs x || includes ys x)
unfolding includes
includes-append [] ys x = refl
includes-append (y ∷ xs) ys x = ground (arith, includes-append xs ys x)

includes-add_values :
    (values vs : List String) (x : String)
    → includes (add_values values vs) x ≡ (includes values x || includes vs x)
unfolding add_values
includes-add_values values [] x = ground arith
includes-add_values values (v ∷ vs) x = ground (
  arith,
  eq_iff v x,
  includes-append values (v ∷ []) x,
  includes-add_values (if includes values v then values else values ++ v ∷ []) vs x,
)

pub includes-remove_values :
    (vs values : List String) (x : String)
    → includes (remove_values vs values) x ≡ (includes values x && not (includes vs x))
unfolding remove_values includes
includes-remove_values vs [] x = refl
includes-remove_values vs (v ∷ values) x =
    ground (arith, eq_iff v x, includes-remove_values vs values x)

-- The two name the same target.
abbrev pub same_target : String → ℕ → String → ℕ → Bool
same_target kind variation kind' variation' = variation == variation' && str_eq kind kind'

-- A target that one name finds has the other name exactly if the two are the same.
pub is_target-same_target :
    (kind : String) (variation : ℕ) (kind' : String) (variation' : ℕ) (t : Target)
    → is_target kind variation t ≡ true
    → is_target kind' variation' t ≡ same_target kind variation kind' variation'
is_target-same_target kind variation kind' variation' t h =
    ground (arith, eq_iff kind kind', eq_iff t.context_kind kind, eq_iff t.context_kind kind')

regroup_added : (b i j r : Bool) → ((b && (i || j)) || r) ≡ (((b && i) || r) || (b && j))
regroup_added b i j r = ground arith

regroup_new : (b j : Bool) → ((b && j) || false) ≡ (b && j)
regroup_new b j = ground arith

pub regroup_later : (h r k : Bool) → (h || (r || k)) ≡ ((h || r) || k)
regroup_later h r k = ground arith

-- After targets are added, a key is targeted exactly if it was before or is one of the keys added,
-- for the variation and the context kind that are named.
pub targeted-add_targets :
    (kind : String) (variation : ℕ) (vs : List String) (kind' : String) (variation' : ℕ)
    (x : String) (ts : List Target)
    → targeted kind' variation' x (add_targets kind variation vs ts) ≡ (
        targeted kind' variation' x ts
        || (same_target kind variation kind' variation' && includes vs x))
unfolding targeted add_targets
targeted-add_targets kind variation vs kind' variation' x [] =
    rw includes-add_values
      (regroup_new (same_target kind variation kind' variation') (includes vs x))
targeted-add_targets kind variation vs kind' variation' x (t ∷ ts) =
    elim (Bool-cases (is_target kind variation t)) [
      | inl found ↦
          rw
            (
              found,
              includes-add_values,
              ← is_target-same_target kind variation kind' variation' t found,
            )
            (regroup_added (is_target kind' variation' t) (includes t.values x) (includes vs x)
              (targeted kind' variation' x ts))
      | inr other ↦
          rw (other, targeted-add_targets kind variation vs kind' variation' x ts)
            (regroup_later (is_target kind' variation' t && includes t.values x)
              (targeted kind' variation' x ts)
              (same_target kind variation kind' variation' && includes vs x))
    ]

-- No two targets have the same variation and context kind.
abbrev pub HasDistinctNames : List Target → Type 0
HasDistinctNames [] = Unit
HasDistinctNames (t ∷ ts) =
    (any (is_target t.context_kind t.variation) ts ≡ false) × HasDistinctNames ts

targeted_absent :
    (kind : String) (variation : ℕ) (x : String) (ts : List Target)
    → any (is_target kind variation) ts ≡ false
    → targeted kind variation x ts ≡ false
unfolding targeted
targeted_absent kind variation x [] h = refl
targeted_absent kind variation x (t ∷ ts) h = ground (arith, targeted_absent kind variation x ts)

-- The target that one name finds is the only one that the other finds, if the two are the same.
absent_later :
    (kind : String) (variation : ℕ) (kind' : String) (variation' : ℕ) (t : Target)
    (ts : List Target)
    → HasDistinctNames (t ∷ ts)
    → is_target kind variation t ≡ true
    → is_target kind' variation' t ≡ true
    → any (is_target kind' variation') ts ≡ false
absent_later kind variation kind' variation' t ts h e e' =
    ground (arith, eq_iff t.context_kind kind')

narrow_found :
    (b i j r : Bool)
    → (b ≡ true → r ≡ false)
    → ((b && (i && not j)) || r) ≡ (((b && i) || r) && not (b && j))
narrow_found b i j r h = ground arith

narrow_later :
    (h t c j : Bool)
    → (h ≡ true → c ≡ false)
    → (h || (t && not (c && j))) ≡ ((h || t) && not (c && j))
narrow_later h t c j p = ground arith

targeted-remove_from_first :
    (kind : String) (variation : ℕ) (vs : List String) (kind' : String) (variation' : ℕ)
    (x : String) (ts : List Target)
    → HasDistinctNames ts
    → targeted kind' variation' x (remove_from_first kind variation vs ts) ≡ (
        targeted kind' variation' x ts
        && not (same_target kind variation kind' variation' && includes vs x))
unfolding targeted remove_from_first
targeted-remove_from_first kind variation vs kind' variation' x [] h = refl
targeted-remove_from_first kind variation vs kind' variation' x (t ∷ ts) h =
    elim (Bool-cases (is_target kind variation t)) [
      | inl found ↦
          rw
            (
              found,
              includes-remove_values,
              ← is_target-same_target kind variation kind' variation' t found,
            )
            (narrow_found (is_target kind' variation' t) (includes t.values x) (includes vs x)
              (targeted kind' variation' x ts)
              (λ e.
                targeted_absent kind' variation' x ts
                  (absent_later kind variation kind' variation' t ts h found e)))
      | inr other ↦
          rw (other, targeted-remove_from_first kind variation vs kind' variation' x ts h.1)
            (narrow_later (is_target kind' variation' t && includes t.values x)
              (targeted kind' variation' x ts) (same_target kind variation kind' variation')
              (includes vs x)
              (λ e.
                (ground (
                  arith,
                  eq_iff kind kind',
                  eq_iff t.context_kind kind,
                  eq_iff t.context_kind kind',
                ))))
    ]

-- A target with no values targets nothing.
keep_empty : (b i r : Bool) → i ≡ false → ((b && i) || r) ≡ r
keep_empty b i r h = ground arith

includes-nil :
    (values : List String) (x : String) → is_nonempty values ≡ false → includes values x ≡ false
unfolding includes
includes-nil [] x h = refl
includes-nil (v ∷ values) x h = cc

abbrev pub has_values : Target → Bool
has_values t = is_nonempty t.values

targeted-filterb :
    (kind : String) (variation : ℕ) (x : String) (ts : List Target)
    → targeted kind variation x (filterb has_values ts) ≡ targeted kind variation x ts
unfolding targeted
targeted-filterb kind variation x [] = refl
targeted-filterb kind variation x (t ∷ ts) = elim (Bool-cases (is_nonempty t.values)) [
  | inl full ↦ rw (filterb-keep has_values t ts full, targeted-filterb kind variation x ts)
  | inr bare ↦ rw (
    filterb-drop has_values t ts bare,
    targeted-filterb kind variation x ts,
    keep_empty (is_target kind variation t) (includes t.values x) (targeted kind variation x ts)
        (includes-nil t.values x bare),
  )
]

-- After targets are removed, a key is targeted exactly if it was before and is not one of the keys
-- removed, for the variation and the context kind that are named, if no two targets have the same
-- variation and context kind.
pub targeted-remove_targets :
    (kind : String) (variation : ℕ) (vs : List String) (kind' : String) (variation' : ℕ)
    (x : String) (ts : List Target)
    → HasDistinctNames ts
    → targeted kind' variation' x (remove_targets kind variation vs ts) ≡ (
        targeted kind' variation' x ts
        && not (same_target kind variation kind' variation' && includes vs x))
unfolding remove_targets
targeted-remove_targets kind variation vs kind' variation' x ts h =
    targeted-filterb kind' variation' x (remove_from_first kind variation vs ts)
    ∙ targeted-remove_from_first kind variation vs kind' variation' x ts h
