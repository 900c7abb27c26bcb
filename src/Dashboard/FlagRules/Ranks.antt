-- ===== src/Dashboard/FlagRules/Ranks.antt =====
-- Reordering rules by a list of their own ids.
use flag_it.Common.{
  ◌+◌, ◌≤◌, ◌<◌, true, false, Option, none, some, String, List, [], ◌∷◌, ◌++◌, ◌≡◌, ◌≢◌, refl, sym,
  ap, ◌∙◌, arith, leb, leb_of, leb_not, str_eq, eq_iff, eq_refl, Bool-cases, inl, inr, length, All,
  All-append, append_assoc,
}
use mathlib.Core.Path.{subst}
use flag_it.Flags.{FlagRule}
use flag_it.Backend.Rules.{is_id, rank, insert_rule, reorder_rules}
use flag_it.Backend.Rules.Order.{insert-front}
use flag_it.Backend.Rules.Ids.{HasDistinctIds}
use flag_it.Dashboard.FlagRules.{given_ids}

-- The id is none of the texts.
abbrev pub Absent : Option String → List String → Type 0
Absent x ids = All (λ y. is_id y x ≡ false) ids

rank-behind :
    (P Q : List String) (x : Option String)
    → Absent x P
    → 0 < rank Q x
    → rank (P ++ Q) x ≡ length P + rank Q x
unfolding rank
rank-behind [] Q x h q = omega arith
rank-behind (y ∷ P) Q x h q = let ih = rank-behind P Q x h.1 q in rw h.0 ground (arith, ih, q)

rank-first :
    (y : String) (Q : List String) (x : Option String) → is_id y x ≡ true → rank (y ∷ Q) x ≡ 1
unfolding rank
rank-first y Q x h = rw h refl

rank-later : (y : String) (Q : List String) (x : Option String) → 0 < rank Q x → 0 < rank (y ∷ Q) x
unfolding rank
rank-later y Q x h = ground (arith, h)

is_id_sound : (y : String) (x : Option String) → is_id y x ≡ true → x ≡ some y
is_id_sound y none h = cc
is_id_sound y (some z) h = ap some ((eq_iff z y).0 h)

pub differs : (y : String) (x : Option String) → x ≢ some y → is_id y x ≡ false
differs y x h = elim (Bool-cases (is_id y x)) [
  | inl same ↦ absurd (h (is_id_sound y x same))
  | inr other ↦ other
]

is_id_refl : (y : String) → is_id y (some y) ≡ true
is_id_refl y = eq_refl y

pub own_rank :
    (P Q : List String) (y : String) (x : Option String)
    → x ≡ some y
    → Absent x P
    → rank (P ++ y ∷ Q) x ≡ length P + 1
own_rank P Q y x named absent =
    let first = rank-first y Q x (ap (is_id y) named ∙ is_id_refl y) in
    omega (arith, first, rank-behind P (y ∷ Q) x absent (omega (arith, first)))

module _ {V : Type 0} where
  insert-commute :
      (order : List String) (r s : FlagRule V) (rules : List (FlagRule V))
      → rank order r.id < rank order s.id
      → insert_rule order r (insert_rule order s rules)
        ≡ insert_rule order s (insert_rule order r rules)
  unfolding insert_rule
  insert-commute order r s [] h =
      rw
        (
          leb_of (rank order r.id) (rank order s.id) (omega (arith, h)),
          leb_not (rank order s.id) (rank order r.id) h,
        )
        refl
  insert-commute order r s (t ∷ rules) h =
      elim (Bool-cases (leb (rank order s.id) (rank order t.id))) [
        | inl before ↦
            rw
              (
                before,
                leb_of (rank order r.id) (rank order t.id) (ground (arith, h, before)),
                leb_of (rank order r.id) (rank order s.id) (omega (arith, h)),
                leb_not (rank order s.id) (rank order r.id) h,
                before,
              )
              refl
        | inr behind ↦ elim (Bool-cases (leb (rank order r.id) (rank order t.id))) [
          | inl before ↦
              rw (behind, before, leb_not (rank order s.id) (rank order r.id) h, behind) refl
          | inr too ↦ rw (behind, too, behind, insert-commute order r s rules h) refl
        ]
      ]

  -- The order of two neighbours does not matter to what reordering makes of them, if their ranks
  -- differ.
  pub reorder-neighbours :
      (order : List String) (pre : List (FlagRule V)) (a b : FlagRule V) (post : List (FlagRule V))
      → rank order b.id < rank order a.id
      → reorder_rules order (pre ++ a ∷ b ∷ post) ≡ reorder_rules order (pre ++ b ∷ a ∷ post)
  unfolding reorder_rules
  reorder-neighbours order [] a b post h =
      sym (insert-commute order b a (reorder_rules order post) h)
  reorder-neighbours order (r ∷ pre) a b post h =
      ap (insert_rule order r) (reorder-neighbours order pre a b post h)

  -- The rule has an id that is no empty text.
  abbrev pub IsNamed : FlagRule V → Type 0
  IsNamed r = (x : String) × (r.id ≡ some x) × (str_eq x "" ≡ false)

  pub given_ids-cons :
      (r : FlagRule V) (rules : List (FlagRule V)) (x : String)
      → r.id ≡ some x
      → str_eq x "" ≡ false
      → given_ids (r ∷ rules) ≡ x ∷ given_ids rules
  unfolding given_ids
  given_ids-cons r rules x named filled = rw (named, filled) refl

  rank-given_ids :
      (rules : List (FlagRule V))
      → All IsNamed rules
      → All (λ s. 0 < rank (given_ids rules) s.id) rules
  rank-given_ids [] h = tt
  rank-given_ids (r ∷ rules) ((x, named, filled), h) =
      subst (λ ids. All (λ s. 0 < rank ids s.id) (r ∷ rules))
        (sym (given_ids-cons r rules x named filled))
        (
          (omega (arith, rank-first x (given_ids rules) r.id (ap (is_id x) named ∙ is_id_refl x))),
          later rules (rank-given_ids rules h),
        )
    where
      later :
          (ss : List (FlagRule V))
          → All (λ s. 0 < rank (given_ids rules) s.id) ss
          → All (λ s. 0 < rank (x ∷ given_ids rules) s.id) ss
      later [] h = tt
      later (s ∷ ss) h = (rank-later x (given_ids rules) s.id h.0, later ss h.1)

  -- Texts before the list that are no ids of its rules do not change the order.
  pub reorder-stays :
      (P : List String) (rules : List (FlagRule V))
      → All IsNamed rules
      → HasDistinctIds rules
      → All (λ r. Absent r.id P) rules
      → reorder_rules (P ++ given_ids rules) rules ≡ rules
  unfolding reorder_rules
  reorder-stays P [] named distinct absent = refl
  reorder-stays P (r ∷ rules) ((x, id, filled), named) distinct absent =
      ap (λ ids. insert_rule (P ++ ids) r (reorder_rules (P ++ ids) rules))
        (given_ids-cons r rules x id filled)
      ∙ ap (λ order. insert_rule (P ++ x ∷ given_ids rules) r (reorder_rules order rules))
          (sym (append_assoc P (x ∷ []) (given_ids rules)))
      ∙ ap (insert_rule (P ++ x ∷ given_ids rules) r) (
          reorder-stays (P ++ x ∷ []) rules named distinct.1
            (absent_more rules distinct.0 absent.1))
      ∙ insert-front (P ++ x ∷ given_ids rules) r rules
          (ranks_above rules (rank-given_ids rules named) absent.1)
    where
      absent_more :
          (ss : List (FlagRule V))
          → All (λ s. r.id ≢ s.id) ss
          → All (λ s. Absent s.id P) ss
          → All (λ s. Absent s.id (P ++ x ∷ [])) ss
      absent_more [] h a = tt
      absent_more (s ∷ ss) h a = (
        All-append (λ y. is_id y s.id ≡ false) P (x ∷ []) a.0
            (differs x s.id (λ e. h.0 (id ∙ sym e)), tt),
        absent_more ss h.1 a.1,
      )

      ranks_above :
          (ss : List (FlagRule V))
          → All (λ s. 0 < rank (given_ids rules) s.id) ss
          → All (λ s. Absent s.id P) ss
          → All
              (λ s. rank (P ++ x ∷ given_ids rules) r.id ≤ rank (P ++ x ∷ given_ids rules) s.id)
              ss
      ranks_above [] h a = tt
      ranks_above (s ∷ ss) h a = (
        (omega (
          arith,
          own_rank P (given_ids rules) x r.id id absent.0,
          rank-behind P (x ∷ given_ids rules) s.id a.0 (rank-later x (given_ids rules) s.id h.0),
          rank-later x (given_ids rules) s.id h.0,
        )),
        ranks_above ss h.1 a.1,
      )
