-- ===== src/Dashboard/Forms/Wizard/Laws.antt =====
-- What the wizard hands on.
use mathlib.Core.Path.{subst}
use flag_it.Common.{true, some, String, List, [], ◌∷◌, leb, ◌≡◌, refl, Bool-cases, inl, inr}
use flag_it.Dashboard.Slug.Laws.{is_slug, is_slug-slugify}
use flag_it.Dashboard.Forms.{is_filled, guarded, both}
use flag_it.Dashboard.Forms.Wizard.{
  Step, first, second, Form, blank, Input, units, account_valid, organization_valid, input_of,
  submit_at, submit, Edit, types_full_name, types_email, types_password, types_organization_name,
  types_organization_slug, goes_back, submits, edit_at, edit, edit_all,
}

-- At the second step the account is in order.
abbrev pub IsAt : Step → Form → Type 0
IsAt first f = Unit
IsAt second f = account_valid f ≡ true

pub record IsForm (f : Form) : Type 0 where
  pub reached : IsAt f.step f
  pub slug : is_slug f.organization_slug ≡ true

module _ (lower : String → String) where
  edit_at-IsForm :
      (s : Step) (e : Edit) (f : Form) → f.step ≡ s → IsForm f → IsForm (edit_at lower s e f)
  edit_at-IsForm first (types_full_name v) f here h = record { reached = rw here tt; slug = h.slug }
  edit_at-IsForm first (types_email v) f here h = record { reached = rw here tt; slug = h.slug }
  edit_at-IsForm first (types_password v) f here h = record { reached = rw here tt; slug = h.slug }
  edit_at-IsForm first (types_organization_name v) f here h = h
  edit_at-IsForm first (types_organization_slug v) f here h = h
  edit_at-IsForm first goes_back f here h = h
  edit_at-IsForm first submits f here h = elim (Bool-cases (account_valid f)) [
    | inl valid ↦ rw valid (record { reached = valid; slug = h.slug })
    | inr invalid ↦ rw invalid h
  ]
  edit_at-IsForm second (types_organization_name v) f here h = elim (Bool-cases f.slug_edited) [
    | inl edited ↦ rw edited (record { reached = rw here (rw here at h.reached); slug = h.slug })
    | inr fresh ↦
        rw fresh
          (record { reached = rw here (rw here at h.reached); slug = is_slug-slugify lower v })
  ]
  edit_at-IsForm second (types_organization_slug v) f here h = record {
    reached = rw here (rw here at h.reached);
    slug = is_slug-slugify lower v;
  }
  edit_at-IsForm second goes_back f here h = record { reached = tt; slug = h.slug }
  edit_at-IsForm second submits f here h = h
  edit_at-IsForm second (types_full_name v) f here h = h
  edit_at-IsForm second (types_email v) f here h = h
  edit_at-IsForm second (types_password v) f here h = h

  pub edit_all-IsForm : (edits : List Edit) (f : Form) → IsForm f → IsForm (edit_all lower edits f)
  unfolding edit_all edit
  edit_all-IsForm [] f h = h
  edit_all-IsForm (e ∷ edits) f h =
      edit_all-IsForm edits (edit lower e f) (edit_at-IsForm f.step e f refl h)

-- An address that is not blank, a password of eight units at least, a name that is not blank, and an
-- address of the organization that is a slug and not blank.
pub record IsSound (i : Input) : Type 0 where
  pub addressed : is_filled i.email ≡ true
  pub long : leb 8 (units i.password) ≡ true
  pub named : is_filled i.organization_name ≡ true
  pub located : is_filled i.organization_slug ≡ true
  pub slug : is_slug i.organization_slug ≡ true

submit_at-IsSound :
    (s : Step) (f : Form)
    → f.step ≡ s
    → IsForm f
    → {input : Input} → (submit_at s f).1 ≡ some input
    → IsSound input
submit_at-IsSound first f here form h = cc
submit_at-IsSound second f here form h =
    let (valid, same) = guarded (organization_valid f) (input_of f) h in
    let (addressed, long) =
      both (is_filled f.email) (leb 8 (units f.password)) (rw here at form.reached) in
    let (named, located) =
      both (is_filled f.organization_name) (is_filled f.organization_slug) valid in
    subst IsSound same (record {
      addressed = addressed;
      long = long;
      named = named;
      located = located;
      slug = form.slug;
    })

-- However the wizard is filled in, with any going on and back between its steps, what it hands on has
-- an email address and a name of the organization that are not blank, a password of eight units at
-- least, and an address of the organization that is a slug and not blank.
pub submit-IsSound_wizard :
    (lower : String → String) (edits : List Edit) {input : Input}
    → (submit (edit_all lower edits blank)).1 ≡ some input
    → IsSound input
unfolding submit
submit-IsSound_wizard lower edits h =
    let f = edit_all lower edits blank in
    submit_at-IsSound f.step f refl
      (edit_all-IsForm lower edits blank (record { reached = tt; slug = refl })) h
