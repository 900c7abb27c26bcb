-- ===== src/Dashboard/Forms/Webhook/Laws.antt =====
-- What the dialog of a new webhook hands on.
use mathlib.Core.Path.{subst}
use flag_it.Common.{
  true, false, ◌||◌, some, List, [], ◌∷◌, length, ltb, ◌≡◌, refl, Bool-cases, inl, inr,
}
use flag_it.Dashboard.Trim.{trim, trim_idempotent}
use flag_it.Dashboard.Forms.{is_filled, toggled-IsDistinct, IsDistinct, guarded, both}
use flag_it.Dashboard.Forms.Webhook.{
  Form, blank, Input, Edit, changes_open, types_url, types_description, checks_all, toggles,
  submits, can_submit, input_of, submit, edit, edit_all,
}

edit-IsDistinct : (e : Edit) (f : Form) → IsDistinct f.selected → IsDistinct (edit e f).selected
unfolding edit
edit-IsDistinct (changes_open true) f h = tt
edit-IsDistinct (changes_open false) f h = h
edit-IsDistinct (types_url v) f h = h
edit-IsDistinct (types_description v) f h = h
edit-IsDistinct (checks_all v) f h = h
edit-IsDistinct (toggles event) f h = toggled-IsDistinct event f.selected h
edit-IsDistinct submits f h = elim (Bool-cases (can_submit f)) [
  | inl ready ↦ rw ready h
  | inr unready ↦ rw unready h
]

edit_all-IsDistinct :
    (edits : List Edit) (f : Form) → IsDistinct f.selected → IsDistinct (edit_all edits f).selected
unfolding edit_all
edit_all-IsDistinct [] f h = h
edit_all-IsDistinct (e ∷ edits) f h = edit_all-IsDistinct edits (edit e f) (edit-IsDistinct e f h)

-- An address that is not blank and is trimmed, and one event at least, none of them twice.
pub record IsSound (i : Input) : Type 0 where
  pub addressed : is_filled i.url ≡ true
  pub trimmed : trim i.url ≡ i.url
  pub subscribed : ltb 0 (length i.event_types) ≡ true
  pub distinct : IsDistinct i.event_types

emits : (f : Form) → IsDistinct f.selected → {input : Input} → submit f ≡ some input → IsSound input
unfolding submit
emits f form h =
    let (ready, same) = guarded (can_submit f) (input_of f) h in
    let (addressed, events) =
      both (is_filled f.url) (f.all_events || ltb 0 (length f.selected)) ready in
    subst IsSound same (elim (Bool-cases f.all_events) [
      | inl every ↦ record {
        addressed = rw trim_idempotent addressed;
        trimmed = trim_idempotent f.url;
        subscribed = rw every refl;
        distinct = rw every (refl, tt);
      }
      | inr some_events ↦ record {
        addressed = rw trim_idempotent addressed;
        trimmed = trim_idempotent f.url;
        subscribed = rw some_events (rw some_events at events);
        distinct = rw some_events form;
      }
    ])

-- After any edits of the blank form, a webhook that is handed on has an address that is trimmed and
-- not blank, and one event at least, none of them twice.
pub submit-IsSound_webhook :
    (edits : List Edit) {input : Input} → submit (edit_all edits blank) ≡ some input → IsSound input
submit-IsSound_webhook edits h = emits (edit_all edits blank) (edit_all-IsDistinct edits blank tt) h
