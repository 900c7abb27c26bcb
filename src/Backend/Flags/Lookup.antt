-- ===== src/Backend/Flags/Lookup.antt =====
-- What is found after a flag was saved, and after it was deleted.
use flag_it.Common.{
  str_eq-other, ℕ, false, none, some, String, List, [], ◌∷◌, ◌≡◌, refl, sym, ap, ◌∙◌, str_eq, not,
  eq_refl, find, find-here, find-later, filterb, filterb-keep, filterb-drop, Bool-cases, inl, inr,
}
use flag_it.Flags.{Flag}
use flag_it.Backend.Flags.{
  FlagBody, FlagStore, has_flag_key, saved_flag, get_flag, put_in, put_flag, delete_flag,
}

module _ {V : Type 0} where
  find-put_in :
      (flag : Flag V) (flags : List (Flag V))
      → find (has_flag_key flag.key) (put_in flag flags) ≡ some flag
  unfolding put_in
  find-put_in flag [] = find-here (has_flag_key flag.key) flag [] (eq_refl flag.key)
  find-put_in flag (f ∷ flags) = elim (Bool-cases (has_flag_key flag.key f)) [
    | inl same ↦ rw same (find-here (has_flag_key flag.key) flag flags (eq_refl flag.key))
    | inr differs ↦
        rw differs (
          find-later (has_flag_key flag.key) f (put_in flag flags) differs ∙ find-put_in flag flags)
  ]

  find-not_put_in :
      (flag : Flag V) (other : String) (flags : List (Flag V))
      → str_eq flag.key other ≡ false
      → find (has_flag_key other) (put_in flag flags) ≡ find (has_flag_key other) flags
  unfolding put_in
  find-not_put_in flag other [] differs = find-later (has_flag_key other) flag [] differs
  find-not_put_in flag other (f ∷ flags) differs = elim (Bool-cases (has_flag_key flag.key f)) [
    | inl same ↦ rw same (
        find-later (has_flag_key other) flag flags differs
        ∙ sym (
            find-later (has_flag_key other) f flags
              (str_eq-other f.key flag.key other same differs)))
    | inr not_same ↦ rw not_same (elim (Bool-cases (has_flag_key other f)) [
      | inl found ↦
          find-here (has_flag_key other) f (put_in flag flags) found
          ∙ sym (find-here (has_flag_key other) f flags found)
      | inr later ↦
          find-later (has_flag_key other) f (put_in flag flags) later
          ∙ find-not_put_in flag other flags differs
          ∙ sym (find-later (has_flag_key other) f flags later)
    ])
  ]

  find-deleted :
      (key : String) (flags : List (Flag V))
      → find (has_flag_key key) (filterb (λ f. not (has_flag_key key f)) flags) ≡ none
  find-deleted key [] = refl
  find-deleted key (f ∷ flags) = elim (Bool-cases (has_flag_key key f)) [
    | inl same ↦
        ap (find (has_flag_key key))
          (filterb-drop (λ g. not (has_flag_key key g)) f flags (rw same refl))
        ∙ find-deleted key flags
    | inr other ↦
        ap (find (has_flag_key key))
          (filterb-keep (λ g. not (has_flag_key key g)) f flags (rw other refl))
        ∙ find-later (has_flag_key key) f (filterb (λ g. not (has_flag_key key g)) flags) other
        ∙ find-deleted key flags
  ]

  find-not_deleted :
      (key other : String) (flags : List (Flag V))
      → str_eq key other ≡ false
      → find (has_flag_key other) (filterb (λ f. not (has_flag_key key f)) flags)
        ≡ find (has_flag_key other) flags
  find-not_deleted key other [] differs = refl
  find-not_deleted key other (f ∷ flags) differs = elim (Bool-cases (has_flag_key key f)) [
    | inl same ↦
        ap (find (has_flag_key other))
          (filterb-drop (λ g. not (has_flag_key key g)) f flags (rw same refl))
        ∙ find-not_deleted key other flags differs
        ∙ sym (find-later (has_flag_key other) f flags (str_eq-other f.key key other same differs))
    | inr kept ↦
        ap (find (has_flag_key other))
          (filterb-keep (λ g. not (has_flag_key key g)) f flags (rw kept refl))
        ∙ elim (Bool-cases (has_flag_key other f)) [
          | inl found ↦
              find-here (has_flag_key other) f (filterb (λ g. not (has_flag_key key g)) flags) found
              ∙ sym (find-here (has_flag_key other) f flags found)
          | inr later ↦
              find-later (has_flag_key other) f (filterb (λ g. not (has_flag_key key g)) flags)
                later
              ∙ find-not_deleted key other flags differs
              ∙ sym (find-later (has_flag_key other) f flags later)
        ]
  ]

  -- After a flag is saved, its key finds what was saved, and after it is deleted its key finds nothing;
  -- another key finds throughout what it found before.
  pub get-delete-put_flag :
      (uuid : ℕ → String) (key : String) (body : FlagBody V) (store : FlagStore V) (other : String)
      → str_eq key other ≡ false
      → let (put, flag) = put_flag uuid key body store in
        let deleted = delete_flag key put in
        ((get_flag key put ≡ some flag) × (get_flag other put ≡ get_flag other store))
        × ((get_flag key deleted ≡ none) × (get_flag other deleted ≡ get_flag other store))
  unfolding get_flag put_flag delete_flag
  get-delete-put_flag uuid key body store other differs =
      let flag = saved_flag (uuid store.issued) key body in
      let others = find-not_put_in flag other store.flags differs in
      (
        (find-put_in flag store.flags, others),
        (
          find-deleted key (put_in flag store.flags),
          find-not_deleted key other (put_in flag store.flags) differs ∙ others,
        ),
      )
