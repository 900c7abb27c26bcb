-- ===== src/Dashboard/FlagRules/Moves.antt =====
-- A move of a rule in the dashboard, and what the backend makes of it.
use mathlib.Core.Path.{subst}
use flag_it.Common.{
  suc, ◌<◌, false, Option, none, some, String, List, [], ◌∷◌, ◌++◌, ◌≡◌, ◌≢◌, refl, sym, ap, ◌∙◌,
  arith, str_eq, length, get_elem?-at, get_elem?-after, set-at, set-after, All, All-append,
  append_assoc, length-append,
}
use flag_it.Common.{Bool-cases, inl, inr}
use flag_it.Flags.{FlagRule}
use flag_it.Backend.Rules.{is_id, rank, reorder_rules}
use flag_it.Backend.Rules.Ids.{HasDistinctIds}
use flag_it.Dashboard.FlagRules.{up, down, add_given, swap_at, given_ids, move}
use flag_it.Dashboard.FlagRules.Ranks.{
  Absent, differs, own_rank, reorder-neighbours, IsNamed, given_ids-cons, reorder-stays,
}

add_given-append :
    (o : Option String) (xs ys : List String) → add_given o (xs ++ ys) ≡ add_given o xs ++ ys
add_given-append none xs ys = refl
add_given-append (some x) xs ys = elim (Bool-cases (str_eq x "")) [
  | inl blank ↦ rw blank refl
  | inr filled ↦ rw filled refl
]

given_ids_nil : (V : Type 0) → given_ids {V = V} [] ≡ []
unfolding given_ids
given_ids_nil V = refl

swapped_down :
    (P : List String) (x y : String) (Q : List String)
    → swap_at (length P) (some (suc (length P))) (P ++ x ∷ y ∷ Q) ≡ some (P ++ y ∷ x ∷ Q)
swapped_down P x y Q =
    rw
      (get_elem?-at P x (y ∷ Q), get_elem?-after P x y Q, set-at P x y (y ∷ Q), set-after P y y x Q)
      refl

swapped_up :
    (P : List String) (x y : String) (Q : List String)
    → swap_at (suc (length P)) (some (length P)) (P ++ x ∷ y ∷ Q) ≡ some (P ++ y ∷ x ∷ Q)
swapped_up P x y Q =
    rw
      (get_elem?-after P x y Q, get_elem?-at P x (y ∷ Q), set-after P x y x Q, set-at P x y (x ∷ Q))
      refl

module _ {V : Type 0} where
  given_ids-append :
      (xs ys : List (FlagRule V)) → given_ids (xs ++ ys) ≡ given_ids xs ++ given_ids ys
  unfolding given_ids
  given_ids-append [] ys = refl
  given_ids-append (r ∷ xs) ys =
      ap (add_given r.id) (given_ids-append xs ys)
      ∙ add_given-append r.id (given_ids xs) (given_ids ys)

  length-given_ids :
      (rules : List (FlagRule V)) → All IsNamed rules → length (given_ids rules) ≡ length rules
  length-given_ids [] h = ap length (given_ids_nil V)
  length-given_ids (r ∷ rules) ((x, id, filled), h) =
      ap length (given_ids-cons r rules x id filled) ∙ ap suc (length-given_ids rules h)

  All-left : (P : FlagRule V → Type 0) (xs ys : List (FlagRule V)) → All P (xs ++ ys) → All P xs
  All-left P [] ys h = tt
  All-left P (x ∷ xs) ys h = (h.0, All-left P xs ys h.1)

  All-right : (P : FlagRule V → Type 0) (xs ys : List (FlagRule V)) → All P (xs ++ ys) → All P ys
  All-right P [] ys h = h
  All-right P (x ∷ xs) ys h = All-right P xs ys h.1

  -- What holds of all rules holds if two neighbours change places.
  All-swap :
      (P : FlagRule V → Type 0) (pre : List (FlagRule V)) (a b : FlagRule V)
      (post : List (FlagRule V))
      → All P (pre ++ a ∷ b ∷ post)
      → All P (pre ++ b ∷ a ∷ post)
  All-swap P [] a b post h = (h.1.0, (h.0, h.1.1))
  All-swap P (r ∷ pre) a b post h = (h.0, All-swap P pre a b post h.1)

  swap-HasDistinctIds :
      (pre : List (FlagRule V)) (a b : FlagRule V) (post : List (FlagRule V))
      → HasDistinctIds (pre ++ a ∷ b ∷ post)
      → HasDistinctIds (pre ++ b ∷ a ∷ post)
  swap-HasDistinctIds [] a b post h = (((λ e. h.0.0 (sym e)), h.1.0), (h.0.1, h.1.1))
  swap-HasDistinctIds (r ∷ pre) a b post h =
      (All-swap (λ s. r.id ≢ s.id) pre a b post h.0, swap-HasDistinctIds pre a b post h.1)

  later-HasDistinctIds :
      (pre rules : List (FlagRule V)) → HasDistinctIds (pre ++ rules) → HasDistinctIds rules
  later-HasDistinctIds [] rules h = h
  later-HasDistinctIds (r ∷ pre) rules h = later-HasDistinctIds pre rules h.1

  -- A rule of another place has none of the ids before it.
  unused_before :
      (pre : List (FlagRule V)) (s : FlagRule V) (post : List (FlagRule V))
      → All IsNamed pre
      → HasDistinctIds (pre ++ s ∷ post)
      → Absent s.id (given_ids pre)
  unused_before [] s post named d = subst (Absent s.id) (sym (given_ids_nil V)) tt
  unused_before (r ∷ pre) s post ((x, id, filled), named) d =
      subst (Absent s.id) (sym (given_ids-cons r pre x id filled)) (
        differs x s.id (λ e. (All-right (λ t. r.id ≢ t.id) pre (s ∷ post) d.0).0 (id ∙ sym e)),
        unused_before pre s post named d.1,
      )

  nothing_before : (rules : List (FlagRule V)) → All (λ r. Absent r.id []) rules
  nothing_before [] = tt
  nothing_before (r ∷ rules) = (tt, nothing_before rules)

  module _ (pre : List (FlagRule V)) (a b : FlagRule V) (post : List (FlagRule V))
      (named : All IsNamed (pre ++ a ∷ b ∷ post)) where
    name_a : IsNamed a
    name_a = (All-right IsNamed pre (a ∷ b ∷ post) named).0

    name_b : IsNamed b
    name_b = (All-right IsNamed pre (a ∷ b ∷ post) named).1.0

    named_before : All IsNamed pre
    named_before = All-left IsNamed pre (a ∷ b ∷ post) named

    length_before : length (given_ids pre) ≡ length pre
    length_before = length-given_ids pre named_before

    ids_of_rules :
        given_ids (pre ++ a ∷ b ∷ post) ≡ given_ids pre ++ name_a.0 ∷ name_b.0 ∷ given_ids post
    ids_of_rules =
        given_ids-append pre (a ∷ b ∷ post)
        ∙ ap (λ ids. given_ids pre ++ ids) (given_ids-cons a (b ∷ post) name_a.0 name_a.1 name_a.2)
        ∙ ap (λ ids. given_ids pre ++ name_a.0 ∷ ids)
            (given_ids-cons b post name_b.0 name_b.1 name_b.2)

    ids_of_swapped :
        given_ids (pre ++ b ∷ a ∷ post) ≡ given_ids pre ++ name_b.0 ∷ name_a.0 ∷ given_ids post
    ids_of_swapped =
        given_ids-append pre (b ∷ a ∷ post)
        ∙ ap (λ ids. given_ids pre ++ ids) (given_ids-cons b (a ∷ post) name_b.0 name_b.1 name_b.2)
        ∙ ap (λ ids. given_ids pre ++ name_b.0 ∷ ids)
            (given_ids-cons a post name_a.0 name_a.1 name_a.2)

    moves_down :
        move (length pre) down (pre ++ a ∷ b ∷ post) ≡ some (given_ids (pre ++ b ∷ a ∷ post))
    unfolding move
    moves_down =
        ap (swap_at (length pre) (some (suc (length pre)))) ids_of_rules
        ∙ ap (λ n. swap_at n (some (suc n)) (given_ids pre ++ name_a.0 ∷ name_b.0 ∷ given_ids post))
            (sym length_before)
        ∙ swapped_down (given_ids pre) name_a.0 name_b.0 (given_ids post)
        ∙ ap some (sym ids_of_swapped)

    moves_up :
        move (suc (length pre)) up (pre ++ a ∷ b ∷ post) ≡ some (given_ids (pre ++ b ∷ a ∷ post))
    unfolding move
    moves_up =
        ap (swap_at (suc (length pre)) (some (length pre))) ids_of_rules
        ∙ ap (λ n. swap_at (suc n) (some n) (given_ids pre ++ name_a.0 ∷ name_b.0 ∷ given_ids post))
            (sym length_before)
        ∙ swapped_up (given_ids pre) name_a.0 name_b.0 (given_ids post)
        ∙ ap some (sym ids_of_swapped)

    ranks_differ :
        HasDistinctIds (pre ++ a ∷ b ∷ post)
        → rank (given_ids (pre ++ b ∷ a ∷ post)) b.id < rank (given_ids (pre ++ b ∷ a ∷ post)) a.id
    ranks_differ distinct = omega (
      arith,
      ap (λ ids. rank ids b.id) ids_of_swapped
          ∙ own_rank (given_ids pre) (name_a.0 ∷ given_ids post) name_b.0 b.id name_b.1 (
              unused_before pre b (a ∷ post) named_before
                (swap-HasDistinctIds pre a b post distinct)),
      ap (λ ids. rank ids a.id)
            (ids_of_swapped
              ∙ sym (append_assoc (given_ids pre) (name_b.0 ∷ []) (name_a.0 ∷ given_ids post)))
          ∙ own_rank (given_ids pre ++ name_b.0 ∷ []) (given_ids post) name_a.0 a.id name_a.1 (
              All-append (λ y. is_id y a.id ≡ false) (given_ids pre) (name_b.0 ∷ [])
                (unused_before pre a (b ∷ post) named_before distinct)
                (
                  differs name_b.0 a.id (λ e.
                      (later-HasDistinctIds pre (a ∷ b ∷ post) distinct).0.0 (e ∙ sym name_b.1)),
                  tt,
                )),
      length-append (given_ids pre) (name_b.0 ∷ []),
    )

  -- What the move of a rule past its neighbour asks the backend for is the ids with the two changed
  -- over, and what the backend makes of it is the rules with the two changed over, if the rules have
  -- ids and no two have the same.
  pub move-reorder_rules :
      (pre : List (FlagRule V)) (a b : FlagRule V) (post : List (FlagRule V))
      → All IsNamed (pre ++ a ∷ b ∷ post)
      → HasDistinctIds (pre ++ a ∷ b ∷ post)
      → (move (length pre) down (pre ++ a ∷ b ∷ post) ≡ some (given_ids (pre ++ b ∷ a ∷ post)))
        × (move (suc (length pre)) up (pre ++ a ∷ b ∷ post)
            ≡ some (given_ids (pre ++ b ∷ a ∷ post)))
        × (reorder_rules (given_ids (pre ++ b ∷ a ∷ post)) (pre ++ a ∷ b ∷ post)
            ≡ pre ++ b ∷ a ∷ post)
  move-reorder_rules pre a b post named distinct = (
    moves_down pre a b post named,
    moves_up pre a b post named,
    reorder-neighbours (given_ids (pre ++ b ∷ a ∷ post)) pre a b post
          (ranks_differ pre a b post named distinct)
        ∙ reorder-stays [] (pre ++ b ∷ a ∷ post) (All-swap IsNamed pre a b post named)
            (swap-HasDistinctIds pre a b post distinct) (nothing_before (pre ++ b ∷ a ∷ post)),
  )
