-- ===== src/Dashboard/Trim.antt =====
-- `trim` of JavaScript, which the forms of the dashboard use.
use Prim.Native.Char.{code}
use flag_it.Common.{
  ℕ, Bool, true, false, String, ◌≡◌, refl, ap, ◌∙◌, arith, ◌==◌, ◌&&◌, ◌||◌, not, leb, Bool-cases,
  inl, inr, if◌then◌else◌,
}

-- White space and line terminators.
abbrev pub is_space : ℕ → Bool
is_space c =
    (leb 9 c && leb c 13)
    || ((c == 32 || c == 160)
        || ((c == 5760 || (leb 8192 c && leb c 8202))
            || ((c == 8232 || c == 8233)
                || ((c == 8239 || c == 8287) || (c == 12288 || c == 65279)))))

unfoldable pub trim_start : String → String
trim_start String.[] = String.[]
trim_start (String.◌∷◌ c s) =
    let rest = trim_start s in if is_space (code c) then rest else String.◌∷◌ c s

abbrev is_blank : String → Bool
is_blank String.[] = true
is_blank (String.◌∷◌ c s) = false

unfoldable pub trim_end : String → String
trim_end String.[] = String.[]
trim_end (String.◌∷◌ c s) =
    let rest = trim_end s in
    if is_space (code c) && is_blank rest then String.[] else String.◌∷◌ c rest

unfoldable pub trim : String → String
unfolding trim_start trim_end
trim s = trim_end (trim_start s)

-- The text does not begin with white space.
abbrev begins_well : String → Bool
begins_well String.[] = true
begins_well (String.◌∷◌ c s) = not (is_space (code c))

not_both : (b : Bool) → b ≡ true → not b ≡ true → ⊥
not_both b h h' = ground arith

trim_start-begins_well : (s : String) → begins_well (trim_start s) ≡ true
unfolding trim_start
trim_start-begins_well String.[] = refl
trim_start-begins_well (String.◌∷◌ c s) = elim (Bool-cases (is_space (code c))) [
  | inl space ↦ rw space (trim_start-begins_well s)
  | inr other ↦ rw (other, other) refl
]

trim_start-idle : (s : String) → begins_well s ≡ true → trim_start s ≡ s
unfolding trim_start
trim_start-idle String.[] h = refl
trim_start-idle (String.◌∷◌ c s) h = elim (Bool-cases (is_space (code c))) [
  | inl space ↦ absurd (not_both (is_space (code c)) space h)
  | inr other ↦ rw other refl
]

trim_end-begins_well : (s : String) → begins_well s ≡ true → begins_well (trim_end s) ≡ true
unfolding trim_end
trim_end-begins_well String.[] h = refl
trim_end-begins_well (String.◌∷◌ c s) h =
    elim (Bool-cases (is_space (code c) && is_blank (trim_end s))) [
      | inl dropped ↦ rw dropped refl
      | inr kept ↦ rw kept h
    ]

trim_end_idempotent : (s : String) → trim_end (trim_end s) ≡ trim_end s
unfolding trim_end
trim_end_idempotent String.[] = refl
trim_end_idempotent (String.◌∷◌ c s) =
    elim (Bool-cases (is_space (code c) && is_blank (trim_end s))) [
      | inl dropped ↦ rw dropped refl
      | inr kept ↦ rw (kept, trim_end_idempotent s, kept) refl
    ]

pub trim_idempotent : (s : String) → trim (trim s) ≡ trim s
unfolding trim
trim_idempotent s =
    ap trim_end (
      trim_start-idle (trim_end (trim_start s))
        (trim_end-begins_well (trim_start s) (trim_start-begins_well s)))
    ∙ trim_end_idempotent (trim_start s)
