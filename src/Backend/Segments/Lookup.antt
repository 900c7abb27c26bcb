-- ===== src/Backend/Segments/Lookup.antt =====
-- What is found after a segment was saved.
use flag_it.Common.{
  str_eq-other, ℕ, ◌+◌, false, none, some, String, List, [], ◌∷◌, ◌≡◌, refl, sym, ap, ◌∙◌, str_eq,
  eq_refl, find, find-here, find-later, find-added, find-not_added, Bool-cases, Option-cases, inl,
  inr,
}
use mathlib.Core.Option.{none-ne-some}
use flag_it.Flags.{Segment}
use flag_it.Backend.Segments.{
  SegmentBody, SegmentStore, has_key, saved, version_of, replace_key, get_segment, put_found,
  put_segment,
}

module _ {V : Type 0} where
  find-replaced :
      (key : String) (segment s : Segment V) (segments : List (Segment V))
      → segment.key ≡ key
      → find (has_key key) segments ≡ some s
      → find (has_key key) (replace_key key segment segments) ≡ some segment
  unfolding replace_key
  find-replaced key segment s [] named h = absurd (none-ne-some s h)
  find-replaced key segment s (t ∷ segments) named h = elim (Bool-cases (has_key key t)) [
    | inl same ↦ rw same (
        find-here (has_key key) segment (replace_key key segment segments)
          (ap (λ k. str_eq k key) named ∙ eq_refl key))
    | inr other ↦ rw other (
        find-later (has_key key) t (replace_key key segment segments) other
        ∙ find-replaced key segment s segments named
            (sym (find-later (has_key key) t segments other) ∙ h))
  ]

  find-not_replaced :
      (key other : String) (segment : Segment V) (segments : List (Segment V))
      → segment.key ≡ key
      → str_eq key other ≡ false
      → find (has_key other) (replace_key key segment segments) ≡ find (has_key other) segments
  unfolding replace_key
  find-not_replaced key other segment [] named differs = refl
  find-not_replaced key other segment (t ∷ segments) named differs =
      elim (Bool-cases (has_key key t)) [
        | inl same ↦ rw same (
            find-later (has_key other) segment (replace_key key segment segments)
              (ap (λ k. str_eq k other) named ∙ differs)
            ∙ find-not_replaced key other segment segments named differs
            ∙ sym
                (find-later (has_key other) t segments (str_eq-other t.key key other same differs)))
        | inr not_same ↦ rw not_same (elim (Bool-cases (has_key other t)) [
          | inl found ↦
              find-here (has_key other) t (replace_key key segment segments) found
              ∙ sym (find-here (has_key other) t segments found)
          | inr later ↦
              find-later (has_key other) t (replace_key key segment segments) later
              ∙ find-not_replaced key other segment segments named differs
              ∙ sym (find-later (has_key other) t segments later)
        ])
      ]

  -- After a segment is saved, its key finds what was saved.
  pub get-put_segment_self :
      (uuid : ℕ → String) (key : String) (body : SegmentBody V) (store : SegmentStore V)
      → (get_segment key (put_segment uuid key body store).0
          ≡ some (put_segment uuid key body store).1)
        × ((put_segment uuid key body store).1.version ≡ version_of (get_segment key store) + 1)
  unfolding get_segment put_segment put_found
  get-put_segment_self uuid key body store =
      elim (Option-cases (find (has_key key) store.segments)) [
        | inl absent ↦ rw absent (
          find-added (has_key key) store.segments (saved key body none (uuid store.issued)) absent
              (eq_refl key),
          refl,
        )
        | inr (s, found) ↦
            rw found
              (find-replaced key (saved key body (some s) s.id) s store.segments refl found, refl)
      ]

  -- Every other key finds what it found before.
  pub get-put_segment_other :
      (uuid : ℕ → String) (key : String) (body : SegmentBody V) (store : SegmentStore V)
      (other : String)
      → str_eq key other ≡ false
      → get_segment other (put_segment uuid key body store).0 ≡ get_segment other store
  unfolding get_segment put_segment put_found
  get-put_segment_other uuid key body store other differs =
      elim (Option-cases (find (has_key key) store.segments)) [
        | inl absent ↦ rw absent (
            find-not_added (has_key other) store.segments (saved key body none (uuid store.issued))
              differs)
        | inr (s, found) ↦
            rw found (
              find-not_replaced key other (saved key body (some s) s.id) store.segments refl
                differs)
      ]
