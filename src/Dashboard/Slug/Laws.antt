-- ===== src/Dashboard/Slug/Laws.antt =====
-- What `slugify` gives: words of plain characters, with single dashes between them.
use Prim.Native.Char.{code}
use flag_it.Common.{
  ℕ, Bool, true, false, String, ◌&&◌, not, if◌then◌else◌, ◌≡◌, refl, ◌⊎◌, inl, inr, arith,
  Bool-cases, never_both, sym,
}
use flag_it.Dashboard.Trim.{trim}
use flag_it.Dashboard.Slug.{
  is_plain, is_dash, starts_other, dashes, strip_start, strip_end, is_blank, slugify,
}

-- Plain characters and dashes, no two dashes in a row; `dash` says that a dash stands before.
abbrev pub no_double : Bool → String → Bool
no_double dash String.[] = true
no_double dash (String.◌∷◌ c s) =
    let plain = no_double false s in
    let other = no_double true s in
    if is_plain (code c) then plain else is_dash (code c) && (not dash && other)

-- The same, with a plain character at the end.
abbrev pub is_slug_from : Bool → String → Bool
is_slug_from dash String.[] = not dash
is_slug_from dash (String.◌∷◌ c s) =
    let plain = is_slug_from false s in
    let other = is_slug_from true s in
    if is_plain (code c) then plain else is_dash (code c) && (not dash && other)

-- Empty, or `[a-z0-9]+(-[a-z0-9]+)*`.
abbrev pub is_slug : String → Bool
is_slug String.[] = true
is_slug (String.◌∷◌ c s) = is_slug_from true (String.◌∷◌ c s)

pub record IsDashed (s : String) : Type 0 where
  pub any_start : no_double false (dashes s) ≡ true
  pub plain_start : starts_other s ≡ false → no_double true (dashes s) ≡ true

dashes-IsDashed : (s : String) → IsDashed s
unfolding dashes
dashes-IsDashed String.[] = record { any_start = refl; plain_start = λ h. refl }
dashes-IsDashed (String.◌∷◌ c s) =
    let ih = dashes-IsDashed s in
    elim (Bool-cases (is_plain (code c))) [
      | inl plain ↦ record {
        any_start = rw (plain, plain) ih.any_start;
        plain_start = λ h. rw (plain, plain) ih.any_start;
      }
      | inr other ↦ elim (Bool-cases (starts_other s)) [
        | inl run ↦ record {
          any_start = rw (other, run) ih.any_start;
          plain_start = λ h. absurd (never_both (not (is_plain (code c))) (rw other refl) h);
        }
        | inr last ↦ record {
          any_start = rw (other, last) (ih.plain_start last);
          plain_start = λ h. absurd (never_both (not (is_plain (code c))) (rw other refl) h);
        }
      ]
    ]

plain_no_dash : (c : ℕ) → is_plain c ≡ true → is_dash c ≡ false
plain_no_dash c h = ground arith

never_dash : (dash : Bool) → (dash && false) ≡ true → ⊥
never_dash dash h = ground arith

dash_first : (dash after : Bool) → (dash && after) ≡ true → (dash ≡ true) × (after ≡ true)
dash_first dash after h = ground arith

-- A text that may follow a dash keeps its start.
strip_start-idle : (s : String) → no_double true s ≡ true → no_double true (strip_start s) ≡ true
unfolding strip_start
strip_start-idle String.[] h = refl
strip_start-idle (String.◌∷◌ c s) h = elim (Bool-cases (is_plain (code c))) [
  | inl plain ↦ rw (plain_no_dash (code c) plain) (rw plain (rw plain at h))
  | inr other ↦ absurd (never_dash (is_dash (code c)) (rw other at h))
]

strip_start-no_double :
    (s : String) → no_double false s ≡ true → no_double true (strip_start s) ≡ true
unfolding strip_start
strip_start-no_double String.[] h = refl
strip_start-no_double (String.◌∷◌ c s) h = elim (Bool-cases (is_plain (code c))) [
  | inl plain ↦ rw (plain_no_dash (code c) plain) (rw plain (rw plain at h))
  | inr other ↦
      let (dash, after) = dash_first (is_dash (code c)) (no_double true s) (rw other at h) in
      rw dash (strip_start-idle s after)
]

closed :
    (s : String) → (is_blank s ≡ true) ⊎ (is_slug_from false s ≡ true) → is_slug_from false s ≡ true
closed String.[] h = refl
closed (String.◌∷◌ c s) (inl h) = absurd (never_both true refl (sym h))
closed (String.◌∷◌ c s) (inr h) = h

unclosed :
    (s : String)
    → is_blank s ≡ false
    → (is_blank s ≡ true) ⊎ (is_slug_from true s ≡ true)
    → is_slug_from true s ≡ true
unclosed s more (inl h) = absurd (never_both (is_blank s) h more)
unclosed s more (inr h) = h

strip_end-is_slug :
    (dash : Bool) (s : String)
    → no_double dash s ≡ true
    → (is_blank (strip_end s) ≡ true) ⊎ (is_slug_from dash (strip_end s) ≡ true)
unfolding strip_end
strip_end-is_slug dash String.[] h = inl refl
strip_end-is_slug dash (String.◌∷◌ c s) h = elim (Bool-cases (is_plain (code c))) [
  | inl plain ↦
      rw (plain_no_dash (code c) plain, plain)
        (inr (closed (strip_end s) (strip_end-is_slug false s (rw plain at h))))
  | inr other ↦
      let (at_dash, rest) =
        dash_first (is_dash (code c)) (not dash && no_double true s) (rw other at h) in
      let (free, after) = dash_first (not dash) (no_double true s) rest in
      elim (Bool-cases (is_blank (strip_end s))) [
        | inl blank ↦ rw (at_dash, blank) (inl refl)
        | inr more ↦
            rw (at_dash, more, other, at_dash, free)
              (inr (unclosed (strip_end s) more (strip_end-is_slug true s after)))
      ]
]

-- A text that follows a dash and is not empty begins with a plain character.
slug_of : (s : String) → (is_blank s ≡ true) ⊎ (is_slug_from true s ≡ true) → is_slug s ≡ true
slug_of String.[] h = refl
slug_of (String.◌∷◌ c s) (inl h) = absurd (never_both true refl (sym h))
slug_of (String.◌∷◌ c s) (inr h) = h

-- Whatever is typed and whatever `toLowerCase` makes of it, `slugify` gives words of plain characters
-- with single dashes between them, or nothing.
pub is_slug-slugify :
    (lower : String → String) (value : String) → is_slug (slugify lower value) ≡ true
unfolding slugify
is_slug-slugify lower value = slug_of _ (
    strip_end-is_slug true (strip_start (dashes (trim (lower value)))) (
      strip_start-no_double (dashes (trim (lower value)))
        (dashes-IsDashed (trim (lower value))).any_start))
