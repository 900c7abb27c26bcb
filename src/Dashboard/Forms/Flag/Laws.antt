-- ===== src/Dashboard/Forms/Flag/Laws.antt =====
-- What the dialog of a new flag hands on.
use mathlib.Core.Path.{subst}
use flag_it.Common.{
  ℕ, zero, suc, true, false, not, ◌&&◌, some, String, List, [], ◌∷◌, ◌+◌, ◌≤◌, map, length,
  length-append, leb, str_eq, ◌≡◌, refl, arith, Bool-cases, inl, inr, All, filterb-All,
}
use flag_it.Dashboard.Slug.Laws.{is_slug, is_slug-slugify}
use flag_it.Dashboard.Forms.{is_filled, guarded, both}
use flag_it.Dashboard.Trim.{trim}
use flag_it.Dashboard.Forms.Flag.{
  Form, blank, Edit, changes_open, types_name, types_key, picks_type, types_variation,
  removes_variation, adds_variation, checks_temporary, replaced, without, Variations, true_false,
  texts, Input, is_boolean, vars_valid, can_submit, variations_of, submit, edit, edit_all,
}

-- The key is a slug, and there are two fields for variations at least.
pub record IsForm (f : Form) : Type 0 where
  pub slug : is_slug f.key ≡ true
  pub two : 2 ≤ length f.string_vars

length-replaced : (i : ℕ) (v : String) (xs : List String) → length (replaced i v xs) ≡ length xs
length-replaced i v [] = refl
length-replaced zero v (x ∷ xs) = refl
length-replaced (suc i) v (x ∷ xs) = rw (length-replaced i v xs) refl

length-without : (i : ℕ) (xs : List String) → length xs ≤ length (without i xs) + 1
length-without i [] = omega arith
length-without zero (x ∷ xs) = omega arith
length-without (suc i) (x ∷ xs) = let ih = length-without i xs in omega arith

module _ (lower : String → String) where
  edit-IsForm : (e : Edit) (f : Form) → IsForm f → IsForm (edit lower e f)
  unfolding edit
  edit-IsForm (changes_open true) f h = h
  edit-IsForm (changes_open false) f h = record { slug = refl; two = omega arith }
  edit-IsForm (types_name value) f h = elim (Bool-cases f.key_edited) [
    | inl edited ↦ rw edited (record { slug = h.slug; two = h.two })
    | inr fresh ↦ rw fresh (record { slug = is_slug-slugify lower value; two = h.two })
  ]
  edit-IsForm (types_key value) f h = record { slug = is_slug-slugify lower value; two = h.two }
  edit-IsForm (picks_type type) f h = record { slug = h.slug; two = h.two }
  edit-IsForm (types_variation i value) f h = record {
    slug = h.slug;
    two = rw (length-replaced i value f.string_vars) h.two;
  }
  edit-IsForm (removes_variation i) f h = elim (Bool-cases (leb (length f.string_vars) 2)) [
    | inl few ↦ rw few h
    | inr more ↦
        rw more (record { slug = h.slug; two = ground (arith, length-without i f.string_vars) })
  ]
  edit-IsForm adds_variation f h = record {
    slug = h.slug;
    two = rw (length-append f.string_vars ("" ∷ [])) (let t = h.two in omega arith);
  }
  edit-IsForm (checks_temporary v) f h = record { slug = h.slug; two = h.two }

  pub edit_all-IsForm : (edits : List Edit) (f : Form) → IsForm f → IsForm (edit_all lower edits f)
  unfolding edit_all
  edit_all-IsForm [] f h = h
  edit_all-IsForm (e ∷ edits) f h = edit_all-IsForm edits (edit lower e f) (edit-IsForm e f h)

-- Two texts at least, none of them empty; or the two Boolean values.
abbrev pub AreSound : Variations → Type 0
AreSound true_false = Unit
AreSound (texts vs) = (2 ≤ length vs) × All (λ v. not (str_eq v "") ≡ true) vs

pub record IsSound (i : Input) : Type 0 where
  pub slug : is_slug i.key ≡ true
  pub keyed : is_filled i.key ≡ true
  pub named : is_filled i.name ≡ true
  pub served : AreSound i.variations

served_of : (f : Form) → vars_valid f ≡ true → AreSound (variations_of f)
served_of f h = elim (Bool-cases (is_boolean f.type)) [
  | inl b ↦ rw b tt
  | inr s ↦
      rw s
        ((ground (arith, rw s at h)), filterb-All (λ v. not (str_eq v "")) (map trim f.string_vars))
]

emits : (f : Form) → IsForm f → {input : Input} → submit f ≡ some input → IsSound input
unfolding submit
emits f form h =
    let (ready, same) = guarded (can_submit f) _ h in
    let (named, rest) = both (is_filled f.name) (is_filled f.key && vars_valid f) ready in
    let (keyed, valid) = both (is_filled f.key) (vars_valid f) rest in
    subst IsSound same
      (record { slug = form.slug; keyed = keyed; named = named; served = served_of f valid })

-- After any edits of the blank form, what is handed on has a key that is a slug and not blank, a name
-- that is not blank, and the two Boolean values or two texts at least, none of which is empty.
pub submit-IsSound :
    (lower : String → String) (edits : List Edit) {input : Input}
    → submit (edit_all lower edits blank) ≡ some input
    → IsSound input
unfolding submit
submit-IsSound lower edits {input} h =
    emits (edit_all lower edits blank)
      (edit_all-IsForm lower edits blank (record { slug = refl; two = omega arith })) h
