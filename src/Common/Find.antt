-- ===== src/Common/Find.antt =====
-- Searches of lists, `xs.find(p)`, and edits of the element that is found.
use mathlib.Core.Path.{◌≡◌, refl, sym, ap, ◌∙◌, subst}
use mathlib.Core.Logic.{inl, inr}
use mathlib.Core.Bool.{Bool, true, false}
use mathlib.Core.Option.{Option, none, some, none-ne-some, some-injective}
use mathlib.Core.List.{List, [], ◌∷◌, ◌++◌}
use flag_it.Common.Tests.{Bool-cases}
use flag_it.Common.Lists.{All}

module _ {ℓ} {A : Type ℓ} where
  abbrev pub find : (A → Bool) → List A → Option A
  find p [] = none
  find p (x ∷ xs) = elim (p x) [ true ↦ some x | false ↦ find p xs ]

  -- The element that `find` gives is changed in place.
  abbrev pub update_first : (A → Bool) → (A → A) → List A → List A
  update_first p f [] = []
  update_first p f (x ∷ xs) = elim (p x) [ true ↦ f x ∷ xs | false ↦ x ∷ update_first p f xs ]

  pub find-here : (p : A → Bool) (x : A) (xs : List A) → p x ≡ true → find p (x ∷ xs) ≡ some x
  find-here p x xs h = rw (h, find)

  pub find-later : (p : A → Bool) (x : A) (xs : List A) → p x ≡ false → find p (x ∷ xs) ≡ find p xs
  find-later p x xs h = rw (h, find)

  pub update_first-here :
      (p : A → Bool) (f : A → A) (x : A) (xs : List A)
      → p x ≡ true
      → update_first p f (x ∷ xs) ≡ f x ∷ xs
  update_first-here p f x xs h = rw (h, update_first)

  pub update_first-later :
      (p : A → Bool) (f : A → A) (x : A) (xs : List A)
      → p x ≡ false
      → update_first p f (x ∷ xs) ≡ x ∷ update_first p f xs
  update_first-later p f x xs h = rw (h, update_first)

  -- If the changed element is found, it is found changed.
  pub find-update_first :
      (p : A → Bool) (f : A → A) (xs : List A) (x : A)
      → find p xs ≡ some x
      → p (f x) ≡ true
      → find p (update_first p f xs) ≡ some (f x)
  find-update_first p f [] x h q = absurd (none-ne-some x h)
  find-update_first p f (y ∷ xs) x h q = elim (Bool-cases (p y)) [
    | inl found ↦
        ap (find p) (update_first-here p f y xs found)
        ∙ ap (λ z. find p (f z ∷ xs)) (some-injective y x (sym (find-here p y xs found) ∙ h))
        ∙ find-here p (f x) xs q
    | inr other ↦
        ap (find p) (update_first-later p f y xs other)
        ∙ find-later p y (update_first p f xs) other
        ∙ find-update_first p f xs x (sym (find-later p y xs other) ∙ h) q
  ]

  -- What another test finds is not what was changed.
  pub find-update_other :
      (p q : A → Bool) (f : A → A) (xs : List A)
      → ((x : A) → p x ≡ true → (q x ≡ false) × (q (f x) ≡ false))
      → find q (update_first p f xs) ≡ find q xs
  find-update_other p q f [] h = refl
  find-update_other p q f (y ∷ xs) h = elim (Bool-cases (p y)) [
    | inl found ↦
        ap (find q) (update_first-here p f y xs found)
        ∙ find-later q (f y) xs (h y found).1
        ∙ sym (find-later q y xs (h y found).0)
    | inr other ↦ ap (find q) (update_first-later p f y xs other) ∙ elim (Bool-cases (q y)) [
      | inl same ↦ find-here q y (update_first p f xs) same ∙ sym (find-here q y xs same)
      | inr differs ↦
          find-later q y (update_first p f xs) differs
          ∙ find-update_other p q f xs h
          ∙ sym (find-later q y xs differs)
    ]
  ]

  -- A search of a list to which an element was added at the end.
  pub find-added :
      (p : A → Bool) (xs : List A) (x : A)
      → find p xs ≡ none
      → p x ≡ true
      → find p (xs ++ x ∷ []) ≡ some x
  find-added p [] x h q = find-here p x [] q
  find-added p (y ∷ xs) x h q = elim (Bool-cases (p y)) [
    | inl found ↦ absurd (none-ne-some y (sym h ∙ find-here p y xs found))
    | inr other ↦
        find-later p y (xs ++ x ∷ []) other
        ∙ find-added p xs x (sym (find-later p y xs other) ∙ h) q
  ]

  pub find-not_added :
      (p : A → Bool) (xs : List A) (x : A) → p x ≡ false → find p (xs ++ x ∷ []) ≡ find p xs
  find-not_added p [] x q = find-later p x [] q
  find-not_added p (y ∷ xs) x q = elim (Bool-cases (p y)) [
    | inl found ↦ find-here p y (xs ++ x ∷ []) found ∙ sym (find-here p y xs found)
    | inr other ↦
        find-later p y (xs ++ x ∷ []) other
        ∙ find-not_added p xs x q
        ∙ sym (find-later p y xs other)
  ]

  -- What is found passes the test.
  pub find-passes : (p : A → Bool) (xs : List A) (x : A) → find p xs ≡ some x → p x ≡ true
  find-passes p [] x h = absurd (none-ne-some x h)
  find-passes p (y ∷ xs) x h = elim (Bool-cases (p y)) [
    | inl found ↦ rw (← some-injective y x (sym (find-here p y xs found) ∙ h)) found
    | inr other ↦ find-passes p xs x (sym (find-later p y xs other) ∙ h)
  ]

module _ {ℓ κ} {A : Type ℓ} where
  pub All-find :
      (P : A → Type κ) (p : A → Bool) (xs : List A) (x : A) → All P xs → find p xs ≡ some x → P x
  All-find P p [] x h e = absurd (none-ne-some x e)
  All-find P p (y ∷ xs) x h e = elim (Bool-cases (p y)) [
    | inl found ↦ subst P (some-injective y x (sym (find-here p y xs found) ∙ e)) h.0
    | inr other ↦ All-find P p xs x h.1 (sym (find-later p y xs other) ∙ e)
  ]

  pub All-update_first :
      (P : A → Type κ) (p : A → Bool) (f : A → A) (xs : List A)
      → ((x : A) → P x → P (f x))
      → All P xs
      → All P (update_first p f xs)
  All-update_first P p f [] kept h = h
  All-update_first P p f (x ∷ xs) kept h = elim (Bool-cases (p x)) [
    | inl found ↦ rw (update_first-here p f x xs found) (kept x h.0, h.1)
    | inr other ↦ rw (update_first-later p f x xs other) (h.0, All-update_first P p f xs kept h.1)
  ]
