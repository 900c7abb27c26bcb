-- ===== src/Backend/Targets/Names.antt =====
-- No edit of the targets of a flag makes two targets of one variation and one context kind, or a
-- target that holds a key twice.
use flag_it.Common.{
  ◌∙◌, ℕ, Bool, false, String, List, [], ◌∷◌, ◌++◌, not, ◌&&◌, ◌||◌, ◌≡◌, refl, arith, eq_iff,
  filterb, any, All, Bool-cases, inl, inr, filterb-keep, filterb-drop,
}
use flag_it.Flags.{Target}
use flag_it.Backend.Targets.{
  includes, is_target, add_values, add_targets, remove_values, remove_from_first, remove_targets,
}
use flag_it.Backend.Targets.Laws.{
  includes-remove_values, same_target, is_target-same_target, HasDistinctNames, has_values,
  regroup_later, includes-append,
}

or_false : (b : Bool) → (b || false) ≡ b
or_false b = ground arith

or_again : (b r : Bool) → (b || r) ≡ ((b || r) || b)
or_again b r = ground arith

-- The names of the targets after an edit.
any-add_targets :
    (kind : String) (variation : ℕ) (vs : List String) (kind' : String) (variation' : ℕ)
    (ts : List Target)
    → any (is_target kind' variation') (add_targets kind variation vs ts)
      ≡ (any (is_target kind' variation') ts || same_target kind variation kind' variation')
unfolding add_targets
any-add_targets kind variation vs kind' variation' [] =
    (or_false (same_target kind variation kind' variation'))
any-add_targets kind variation vs kind' variation' (t ∷ ts) =
    elim (Bool-cases (is_target kind variation t)) [
      | inl found ↦
          rw (found, ← is_target-same_target kind variation kind' variation' t found)
            (or_again (is_target kind' variation' t) (any (is_target kind' variation') ts))
      | inr other ↦
          rw (other, any-add_targets kind variation vs kind' variation' ts)
            (regroup_later (is_target kind' variation' t) (any (is_target kind' variation') ts)
              (same_target kind variation kind' variation'))
    ]

add_targets-HasDistinctNames :
    (kind : String) (variation : ℕ) (vs : List String) (ts : List Target)
    → HasDistinctNames ts
    → HasDistinctNames (add_targets kind variation vs ts)
unfolding add_targets
add_targets-HasDistinctNames kind variation vs [] h = (refl, tt)
add_targets-HasDistinctNames kind variation vs (t ∷ ts) h =
    elim (Bool-cases (is_target kind variation t)) [
      | inl found ↦ rw found h
      | inr other ↦ rw other (
        rw any-add_targets (ground (arith, eq_iff kind t.context_kind, eq_iff t.context_kind kind)),
        add_targets-HasDistinctNames kind variation vs ts h.1,
      )
    ]

remove_from_first-any :
    (kind : String) (variation : ℕ) (vs : List String) (kind' : String) (variation' : ℕ)
    (ts : List Target)
    → any (is_target kind' variation') (remove_from_first kind variation vs ts)
      ≡ any (is_target kind' variation') ts
unfolding remove_from_first
remove_from_first-any kind variation vs kind' variation' [] = refl
remove_from_first-any kind variation vs kind' variation' (t ∷ ts) =
    elim (Bool-cases (is_target kind variation t)) [
      | inl found ↦ rw found
      | inr other ↦ rw (other, remove_from_first-any kind variation vs kind' variation' ts)
    ]

remove_from_first-HasDistinctNames :
    (kind : String) (variation : ℕ) (vs : List String) (ts : List Target)
    → HasDistinctNames ts
    → HasDistinctNames (remove_from_first kind variation vs ts)
unfolding remove_from_first
remove_from_first-HasDistinctNames kind variation vs [] h = h
remove_from_first-HasDistinctNames kind variation vs (t ∷ ts) h =
    elim (Bool-cases (is_target kind variation t)) [
      | inl found ↦ rw found h
      | inr other ↦ rw other (
        rw (remove_from_first-any kind variation vs t.context_kind t.variation ts) h.0,
        remove_from_first-HasDistinctNames kind variation vs ts h.1,
      )
    ]

any-filterb :
    (q p : Target → Bool) (ts : List Target) → any q ts ≡ false → any q (filterb p ts) ≡ false
any-filterb q p [] h = refl
any-filterb q p (t ∷ ts) h = ground (arith, any-filterb q p ts)

filterb-HasDistinctNames :
    (p : Target → Bool) (ts : List Target) → HasDistinctNames ts → HasDistinctNames (filterb p ts)
filterb-HasDistinctNames p [] h = h
filterb-HasDistinctNames p (t ∷ ts) h = elim (Bool-cases (p t)) [
  | inl kept ↦ rw (filterb-keep p t ts kept) (
    any-filterb (is_target t.context_kind t.variation) p ts h.0,
    filterb-HasDistinctNames p ts h.1,
  )
  | inr dropped ↦ rw (filterb-drop p t ts dropped) (filterb-HasDistinctNames p ts h.1)
]

pub remove_targets-HasDistinctNames :
    (kind : String) (variation : ℕ) (vs : List String) (ts : List Target)
    → HasDistinctNames ts
    → HasDistinctNames (remove_targets kind variation vs ts)
unfolding remove_targets
remove_targets-HasDistinctNames kind variation vs ts h =
    filterb-HasDistinctNames has_values _
      (remove_from_first-HasDistinctNames kind variation vs ts h)

abbrev pub NoRepeats : List String → Type 0
NoRepeats [] = Unit
NoRepeats (x ∷ xs) = (includes xs x ≡ false) × NoRepeats xs

NoRepeats-append :
    (xs : List String) (v : String)
    → includes xs v ≡ false
    → NoRepeats xs
    → NoRepeats (xs ++ v ∷ [])
unfolding includes
NoRepeats-append [] v h k = (refl, tt)
NoRepeats-append (x ∷ xs) v h k = (
  rw (includes-append xs (v ∷ []) x) (ground (arith, eq_iff x v, eq_iff v x)),
  NoRepeats-append xs v (ground arith) k.1,
)

add_values-NoRepeats :
    (values vs : List String) → NoRepeats values → NoRepeats (add_values values vs)
unfolding add_values
add_values-NoRepeats values [] h = h
add_values-NoRepeats values (v ∷ vs) h = elim (Bool-cases (includes values v)) [
  | inl there ↦ rw there (add_values-NoRepeats values vs h)
  | inr fresh ↦
      rw fresh (add_values-NoRepeats (values ++ v ∷ []) vs (NoRepeats-append values v fresh h))
]

absent_and : (i j : Bool) → i ≡ false → (i && j) ≡ false
absent_and i j h = ground arith

remove_values-NoRepeats :
    (vs values : List String) → NoRepeats values → NoRepeats (remove_values vs values)
unfolding remove_values
remove_values-NoRepeats vs [] h = h
remove_values-NoRepeats vs (v ∷ values) h = elim (Bool-cases (not (includes vs v))) [
  | inl kept ↦ rw (filterb-keep (λ x. not (includes vs x)) v values kept) (
    includes-remove_values vs values v ∙ absent_and (includes values v) (not (includes vs v)) h.0,
    remove_values-NoRepeats vs values h.1,
  )
  | inr dropped ↦
      rw (filterb-drop (λ x. not (includes vs x)) v values dropped)
        (remove_values-NoRepeats vs values h.1)
]

abbrev pub HasSets : List Target → Type 0
HasSets ts = All (λ t. NoRepeats t.values) ts

add_targets-HasSets :
    (kind : String) (variation : ℕ) (vs : List String) (ts : List Target)
    → HasSets ts
    → HasSets (add_targets kind variation vs ts)
unfolding add_targets
add_targets-HasSets kind variation vs [] h = (add_values-NoRepeats [] vs tt, tt)
add_targets-HasSets kind variation vs (t ∷ ts) h = elim (Bool-cases (is_target kind variation t)) [
  | inl found ↦ rw found (add_values-NoRepeats t.values vs h.0, h.1)
  | inr other ↦ rw other (h.0, add_targets-HasSets kind variation vs ts h.1)
]

remove_from_first-HasSets :
    (kind : String) (variation : ℕ) (vs : List String) (ts : List Target)
    → HasSets ts
    → HasSets (remove_from_first kind variation vs ts)
unfolding remove_from_first
remove_from_first-HasSets kind variation vs [] h = h
remove_from_first-HasSets kind variation vs (t ∷ ts) h =
    elim (Bool-cases (is_target kind variation t)) [
      | inl found ↦ rw found (remove_values-NoRepeats vs t.values h.0, h.1)
      | inr other ↦ rw other (h.0, remove_from_first-HasSets kind variation vs ts h.1)
    ]

filterb-HasSets : (p : Target → Bool) (ts : List Target) → HasSets ts → HasSets (filterb p ts)
filterb-HasSets p [] h = h
filterb-HasSets p (t ∷ ts) h = elim (Bool-cases (p t)) [
  | inl kept ↦ rw (filterb-keep p t ts kept) (h.0, filterb-HasSets p ts h.1)
  | inr dropped ↦ rw (filterb-drop p t ts dropped) (filterb-HasSets p ts h.1)
]

-- The targets of a flag are well formed.
pub record IsTargetMap (ts : List Target) : Type 0 where
  pub names : HasDistinctNames ts
  pub sets : HasSets ts

pub add_targets-IsTargetMap :
    (kind : String) (variation : ℕ) (vs : List String) (ts : List Target)
    → IsTargetMap ts
    → IsTargetMap (add_targets kind variation vs ts)
add_targets-IsTargetMap kind variation vs ts h = record {
  names = add_targets-HasDistinctNames kind variation vs ts h.names;
  sets = add_targets-HasSets kind variation vs ts h.sets;
}

pub remove_targets-IsTargetMap :
    (kind : String) (variation : ℕ) (vs : List String) (ts : List Target)
    → IsTargetMap ts
    → IsTargetMap (remove_targets kind variation vs ts)
unfolding remove_targets
remove_targets-IsTargetMap kind variation vs ts h = record {
  names = remove_targets-HasDistinctNames kind variation vs ts h.names;
  sets = filterb-HasSets has_values _ (remove_from_first-HasSets kind variation vs ts h.sets);
}
