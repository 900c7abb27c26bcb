-- ===== src/Dashboard/Forms.antt =====
-- The forms of the dashboard's dialogs, as their state and their callbacks: one module per dialog. An
-- edit is a call of a callback; `submit` is `handleSubmit`, and gives what is handed on, or none.
-- `preventDefault`, the texts and the markup are left out.
pub mod Flag
pub mod Wizard
pub mod Role
pub mod Webhook
pub mod Schedule
mod Tests
use flag_it.Common.{
  Bool, true, false, not, String, List, [], ◌∷◌, ◌++◌, any, filterb, filterb-keep, filterb-drop,
  str_eq, str_eq_comm, ◌||◌, if◌then◌else◌, Option, some, none, ◌≡◌, refl, ◌&&◌, arith, All,
  All-append, All-filterb, Bool-cases, inl, inr, eq_iff, ap, sym, ◌≢◌, never_both,
}
use flag_it.Dashboard.Trim.{trim}

-- `text.trim() !== ''`
abbrev pub is_filled : String → Bool
is_filled s = not (str_eq (trim s) "")

-- `prev.includes(v) ? prev.filter((p) => p !== v) : [...prev, v]`
unfoldable pub toggled : String → List String → List String
toggled v selected =
    if any (str_eq v) selected then filterb (λ p. not (str_eq p v)) selected else selected ++ v ∷ []

-- What a guarded `submit` hands on was let through.
pub guarded {ℓ} :
    {A : Type ℓ} (b : Bool) (x : A) {y : A}
    → (if b then some x else none) ≡ some y
    → (b ≡ true) × (x ≡ y)
guarded true x h = (refl, cc)
guarded false x h = cc

pub both : (a b : Bool) → (a && b) ≡ true → (a ≡ true) × (b ≡ true)
both a b h = ground arith

-- No text stands twice.
abbrev pub IsDistinct : List String → Type 0
IsDistinct [] = Unit
IsDistinct (x ∷ xs) = (any (str_eq x) xs ≡ false) × IsDistinct xs

any-filterb :
    (p : String → Bool) (x : String) (xs : List String)
    → any (str_eq x) xs ≡ false
    → any (str_eq x) (filterb p xs) ≡ false
any-filterb p x [] h = refl
any-filterb p x (y ∷ ys) h = elim (Bool-cases (p y)) [
  | inl kept ↦ rw (filterb-keep p y ys kept) (ground (arith, any-filterb p x ys))
  | inr dropped ↦ rw (filterb-drop p y ys dropped) (any-filterb p x ys (ground arith))
]

pub filterb-IsDistinct :
    (p : String → Bool) (xs : List String) → IsDistinct xs → IsDistinct (filterb p xs)
filterb-IsDistinct p [] h = tt
filterb-IsDistinct p (x ∷ xs) h = elim (Bool-cases (p x)) [
  | inl kept ↦ rw (filterb-keep p x xs kept) (any-filterb p x xs h.0, filterb-IsDistinct p xs h.1)
  | inr dropped ↦ rw (filterb-drop p x xs dropped) (filterb-IsDistinct p xs h.1)
]

any-added :
    (v x : String) (xs : List String)
    → str_eq v x ≡ false
    → any (str_eq x) xs ≡ false
    → any (str_eq x) (xs ++ v ∷ []) ≡ false
any-added v x [] h d = rw (str_eq_comm x v, h) refl
any-added v x (y ∷ ys) h d = ground (arith, any-added v x ys h)

pub added-IsDistinct :
    (v : String) (xs : List String)
    → any (str_eq v) xs ≡ false
    → IsDistinct xs
    → IsDistinct (xs ++ v ∷ [])
added-IsDistinct v [] h d = (refl, tt)
added-IsDistinct v (x ∷ xs) h d =
    (any-added v x xs (ground arith) d.0, added-IsDistinct v xs (ground arith) d.1)

pub toggled-IsDistinct : (v : String) (xs : List String) → IsDistinct xs → IsDistinct (toggled v xs)
unfolding toggled
toggled-IsDistinct v xs h = elim (Bool-cases (any (str_eq v) xs)) [
  | inl there ↦ rw there (filterb-IsDistinct (λ p. not (str_eq p v)) xs h)
  | inr fresh ↦ rw fresh (added-IsDistinct v xs fresh h)
]
