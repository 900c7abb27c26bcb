-- ===== src/Backend/Store/Lookups.antt =====
-- What is found in the table of configurations after one was put in it.
use flag_it.Common.{
  false, some, String, List, [], ◌∷◌, ◌≡◌, refl, str_eq, str_eq-other, eq_refl, Bool-cases, inl,
  inr,
}
use flag_it.Flags.{FlagConfig}
use flag_it.Backend.Store.{lookup, put}

module _ {V : Type 0} where
  pub lookup-put :
      (k : String) (c : FlagConfig V) (configs : List (String × FlagConfig V))
      → lookup k (put k c configs) ≡ some c
  unfolding lookup put
  lookup-put k c [] = rw (eq_refl k) refl
  lookup-put k c ((j, d) ∷ configs) = elim (Bool-cases (str_eq j k)) [
    | inl same ↦ rw (same, same) refl
    | inr other ↦ rw (other, other) (lookup-put k c configs)
  ]

  pub lookup-put_other :
      (k i : String) (c : FlagConfig V) (configs : List (String × FlagConfig V))
      → str_eq k i ≡ false
      → lookup i (put k c configs) ≡ lookup i configs
  unfolding lookup put
  lookup-put_other k i c [] differs = rw differs refl
  lookup-put_other k i c ((j, d) ∷ configs) differs = elim (Bool-cases (str_eq j k)) [
    | inl same ↦ rw (same, str_eq-other j k i same differs) refl
    | inr other ↦ rw other (elim (Bool-cases (str_eq j i)) [
      | inl found ↦ rw found refl
      | inr later ↦ rw later (lookup-put_other k i c configs differs)
    ])
  ]
