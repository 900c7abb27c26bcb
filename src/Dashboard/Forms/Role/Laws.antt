-- ===== src/Dashboard/Forms/Role/Laws.antt =====
-- What the dialog of a new role hands on, and what its groups hold.
use mathlib.Core.Path.{subst}
use flag_it.Common.{
  true, false, ◌&&◌, some, String, List, [], ◌∷◌, length, ltb, ◌≡◌, refl, Bool-cases, inl, inr,
}
use flag_it.Dashboard.Slug.Laws.{is_slug, is_slug-slugify}
use flag_it.Dashboard.Forms.{is_filled, toggled-IsDistinct, IsDistinct, guarded, both}
use flag_it.Dashboard.Forms.Role.{
  Form, blank, Input, Edit, changes_open, types_name, types_key, types_description, picks_scope,
  toggles, can_submit, input_of, submit, edit, edit_all,
}

pub record IsForm (f : Form) : Type 0 where
  pub slug : is_slug f.key ≡ true
  pub distinct : IsDistinct f.selected

module _ (lower : String → String) where
  edit-IsForm : (e : Edit) (f : Form) → IsForm f → IsForm (edit lower e f)
  unfolding edit
  edit-IsForm (changes_open true) f h = h
  edit-IsForm (changes_open false) f h = record { slug = refl; distinct = tt }
  edit-IsForm (types_name value) f h = elim (Bool-cases f.key_edited) [
    | inl edited ↦ rw edited (record { slug = h.slug; distinct = h.distinct })
    | inr fresh ↦ rw fresh (record { slug = is_slug-slugify lower value; distinct = h.distinct })
  ]
  edit-IsForm (types_key value) f h = record {
    slug = is_slug-slugify lower value;
    distinct = h.distinct;
  }
  edit-IsForm (types_description v) f h = record { slug = h.slug; distinct = h.distinct }
  edit-IsForm (picks_scope v) f h = record { slug = h.slug; distinct = h.distinct }
  edit-IsForm (toggles p) f h = record {
    slug = h.slug;
    distinct = toggled-IsDistinct p f.selected h.distinct;
  }

  edit_all-IsForm : (edits : List Edit) (f : Form) → IsForm f → IsForm (edit_all lower edits f)
  unfolding edit_all
  edit_all-IsForm [] f h = h
  edit_all-IsForm (e ∷ edits) f h = edit_all-IsForm edits (edit lower e f) (edit-IsForm e f h)

pub record IsSound (i : Input) : Type 0 where
  pub slug : is_slug i.key ≡ true
  pub keyed : is_filled i.key ≡ true
  pub named : is_filled i.name ≡ true
  pub granted : ltb 0 (length i.permissions) ≡ true
  pub distinct : IsDistinct i.permissions

emits : (f : Form) → IsForm f → {input : Input} → submit f ≡ some input → IsSound input
unfolding submit
emits f form h =
    let (ready, same) = guarded (can_submit f) (input_of f) h in
    let (named, rest) =
      both (is_filled f.name) (is_filled f.key && ltb 0 (length f.selected)) ready in
    let (keyed, granted) = both (is_filled f.key) (ltb 0 (length f.selected)) rest in
    subst IsSound same (record {
      slug = form.slug;
      keyed = keyed;
      named = named;
      granted = granted;
      distinct = form.distinct;
    })

-- After any edits of the blank form, a role that is handed on has a key that is a slug and not blank,
-- a name that is not blank, and one permission at least, none of them twice.
pub submit-IsSound_role :
    (lower : String → String) (edits : List Edit) {input : Input}
    → submit (edit_all lower edits blank) ≡ some input
    → IsSound input
submit-IsSound_role lower edits h =
    emits (edit_all lower edits blank)
      (edit_all-IsForm lower edits blank (record { slug = refl; distinct = tt })) h
