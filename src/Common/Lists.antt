-- ===== src/Common/Lists.antt =====
-- Lists measured by native numbers, predicates on all elements, and texts.
use Prim.Native.Nat.{ℕ, zero, suc, ◌+◌, ◌-◌, ◌≤◌}
use Prim.Native.Char.{code}
use Prim.Native.String.{String}
use mathlib.Core.Path.{◌≡◌, refl, ap}
use mathlib.Core.Bool.{Bool, true, false, ◌&&◌, ◌||◌}
use mathlib.Core.Option.{Option, none, some}
use mathlib.Core.List.{List, [], ◌∷◌, ◌++◌, map}
use mathlib.Core.Logic.{inl, inr}
use native.Mathlib.Omega.{arith}
use flag_it.Common.Tests.{Bool-cases}

-- A text that the program walks: its UTF-16 code units.
abbrev pub Text : Type 0
Text = List ℕ

-- The code units of a text of the basic plane.
abbrev pub codes : String → Text
codes String.[] = []
codes (String.◌∷◌ c s) = code c ∷ codes s

module _ {ℓ} {A : Type ℓ} where
  abbrev pub length : List A → ℕ
  length [] = 0
  length (x ∷ xs) = suc (length xs)

  abbrev pub take : ℕ → List A → List A
  take zero xs = []
  take (suc n) [] = []
  take (suc n) (x ∷ xs) = x ∷ take n xs

  abbrev pub drop : ℕ → List A → List A
  drop zero xs = xs
  drop (suc n) [] = []
  drop (suc n) (x ∷ xs) = drop n xs

  abbrev pub get_elem? : List A → ℕ → Option A
  get_elem? [] i = none
  get_elem? (x ∷ xs) zero = some x
  get_elem? (x ∷ xs) (suc i) = get_elem? xs i

  -- A write out of bounds changes nothing.
  abbrev pub set : List A → ℕ → A → List A
  set [] i v = []
  set (x ∷ xs) zero v = v ∷ xs
  set (x ∷ xs) (suc i) v = x ∷ set xs i v

  abbrev pub replicate : ℕ → A → List A
  replicate zero a = []
  replicate (suc n) a = a ∷ replicate n a

  -- `xs.filter(p)`, `xs.some(p)`, `xs.every(p)` and `xs.find(p)` of JavaScript.
  abbrev pub filterb : (A → Bool) → List A → List A
  filterb p [] = []
  filterb p (x ∷ xs) = elim (p x) [ true ↦ x ∷ filterb p xs | false ↦ filterb p xs ]

  abbrev pub any : (A → Bool) → List A → Bool
  any p [] = false
  any p (x ∷ xs) = p x || any p xs

  abbrev pub all : (A → Bool) → List A → Bool
  all p [] = true
  all p (x ∷ xs) = p x && all p xs

  abbrev pub concat : List (List A) → List A
  concat [] = []
  concat (xs ∷ xss) = xs ++ concat xss

  pub filterb-keep :
      (p : A → Bool) (x : A) (xs : List A) → p x ≡ true → filterb p (x ∷ xs) ≡ x ∷ filterb p xs
  filterb-keep p x xs h = rw (h, filterb)

  pub filterb-drop :
      (p : A → Bool) (x : A) (xs : List A) → p x ≡ false → filterb p (x ∷ xs) ≡ filterb p xs
  filterb-drop p x xs h = rw (h, filterb)

  pub get_elem?-at :
      (xs : List A) (x : A) (ys : List A) → get_elem? (xs ++ x ∷ ys) (length xs) ≡ some x
  get_elem?-at [] x ys = refl
  get_elem?-at (z ∷ xs) x ys = get_elem?-at xs x ys

  pub set-at :
      (xs : List A) (x y : A) (ys : List A) → set (xs ++ x ∷ ys) (length xs) y ≡ xs ++ y ∷ ys
  set-at [] x y ys = refl
  set-at (z ∷ xs) x y ys = ap (λ t. z ∷ t) (set-at xs x y ys)

  -- Two neighbours, of which the second is at the index after the first.
  pub get_elem?-after :
      (xs : List A) (x y : A) (ys : List A)
      → get_elem? (xs ++ x ∷ y ∷ ys) (suc (length xs)) ≡ some y
  get_elem?-after [] x y ys = refl
  get_elem?-after (z ∷ xs) x y ys = get_elem?-after xs x y ys

  pub set-after :
      (xs : List A) (x y v : A) (ys : List A)
      → set (xs ++ x ∷ y ∷ ys) (suc (length xs)) v ≡ xs ++ x ∷ v ∷ ys
  set-after [] x y v ys = refl
  set-after (z ∷ xs) x y v ys = ap (λ t. z ∷ t) (set-after xs x y v ys)

  pub append_assoc : (xs ys zs : List A) → (xs ++ ys) ++ zs ≡ xs ++ (ys ++ zs)
  append_assoc [] ys zs = refl
  append_assoc (x ∷ xs) ys zs = ap (λ t. x ∷ t) (append_assoc xs ys zs)

  pub length-append : (xs ys : List A) → length (xs ++ ys) ≡ length xs + length ys
  length-append [] ys = omega arith
  length-append (x ∷ xs) ys = omega (arith, length-append xs ys)

  pub length-drop : (n : ℕ) (xs : List A) → length (drop n xs) ≡ length xs - n
  length-drop zero xs = omega arith
  length-drop (suc n) [] = omega arith
  length-drop (suc n) (x ∷ xs) = omega (arith, length-drop n xs)

  pub take-append : (n : ℕ) (xs ys : List A) → n ≤ length xs → take n (xs ++ ys) ≡ take n xs
  take-append zero xs ys h = refl
  take-append (suc n) [] ys h = elim h [ ]
  take-append (suc n) (x ∷ xs) ys h = ap (λ t. x ∷ t) (take-append n xs ys (omega arith))

  pub drop-append : (n : ℕ) (xs ys : List A) → n ≤ length xs → drop n (xs ++ ys) ≡ drop n xs ++ ys
  drop-append zero xs ys h = refl
  drop-append (suc n) [] ys h = elim h [ ]
  drop-append (suc n) (x ∷ xs) ys h = drop-append n xs ys (omega arith)

  pub length-replicate : (n : ℕ) (a : A) → length (replicate n a) ≡ n
  length-replicate zero a = refl
  length-replicate (suc n) a = ap suc (length-replicate n a)

pub length-map {ℓ κ} :
    {A : Type ℓ} {B : Type κ} (f : A → B) (xs : List A) → length (map f xs) ≡ length xs
length-map f [] = refl
length-map f (x ∷ xs) = ap suc (length-map f xs)

module _ {ℓ κ} {A : Type ℓ} where
  -- Holds of every element.
  abbrev pub All : (A → Type κ) → List A → Type κ
  All P [] = Unit
  All P (x ∷ xs) = P x × All P xs

  pub All-append : (P : A → Type κ) (xs ys : List A) → All P xs → All P ys → All P (xs ++ ys)
  All-append P [] ys h h' = h'
  All-append P (x ∷ xs) ys h h' = (h.0, All-append P xs ys h.1 h')

  pub All-split : (P : A → Type κ) (xs ys : List A) → All P (xs ++ ys) → All P xs × All P ys
  All-split P [] ys h = (tt, h)
  All-split P (x ∷ xs) ys h = let (first, rest) = All-split P xs ys h.1 in ((h.0, first), rest)

  pub All-filterb : (P : A → Type κ) (p : A → Bool) (xs : List A) → All P xs → All P (filterb p xs)
  All-filterb P p [] h = h
  All-filterb P p (x ∷ xs) h = elim (Bool-cases (p x)) [
    | inl kept ↦ rw (filterb-keep p x xs kept) (h.0, All-filterb P p xs h.1)
    | inr dropped ↦ rw (filterb-drop p x xs dropped) (All-filterb P p xs h.1)
  ]

module _ {ℓ} {A : Type ℓ} where
  -- The kept elements pass the test.
  pub filterb-All : (p : A → Bool) (xs : List A) → All (λ x. p x ≡ true) (filterb p xs)
  filterb-All p [] = tt
  filterb-All p (x ∷ xs) = elim (Bool-cases (p x)) [
    | inl kept ↦ rw (filterb-keep p x xs kept) (kept, filterb-All p xs)
    | inr dropped ↦ rw (filterb-drop p x xs dropped) (filterb-All p xs)
  ]
