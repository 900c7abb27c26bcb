-- ===== src/Dashboard/SegmentEditor/Laws.antt =====
-- What the editor of a segment saves.
use flag_it.Common.{
  false, not, ◌||◌, String, List, [], ◌∷◌, any, str_eq, ◌≡◌, refl, Bool-cases, inl, inr, All,
  All-append, All-filterb, neither,
}
use flag_it.Sdk.Json.{Json}
use flag_it.Flags.{Segment}
use flag_it.Dashboard.Trim.{trim, trim_idempotent}
use flag_it.Dashboard.Clauses.{JsonText}
use flag_it.Dashboard.Forms.{IsDistinct, added-IsDistinct, filterb-IsDistinct}
use flag_it.Dashboard.SegmentEditor.{
  Editor, Edit, includes_key, drops_included, excludes_key, drops_excluded, changes_rule,
  removes_rule, adds_rule, open_editor, save, edit, edit_all, add_key, remove_key,
}

-- Not empty, and without white space around it.
pub record IsKey (s : String) : Type 0 where
  pub filled : str_eq s "" ≡ false
  pub trimmed : trim s ≡ s

-- Keys, none of them twice.
pub record AreKeys (xs : List String) : Type 0 where
  pub distinct : IsDistinct xs
  pub keys : All IsKey xs

add_key-AreKeys : (draft : String) (xs : List String) → AreKeys xs → AreKeys (add_key draft xs)
unfolding add_key
add_key-AreKeys draft xs h =
    elim (Bool-cases (str_eq (trim draft) "" || any (str_eq (trim draft)) xs)) [
      | inl skipped ↦ rw skipped h
      | inr added ↦
          let (filled, fresh) =
            neither (str_eq (trim draft) "") (any (str_eq (trim draft)) xs) added in
          rw added (record {
            distinct = added-IsDistinct (trim draft) xs fresh h.distinct;
            keys =
                All-append IsKey xs (trim draft ∷ []) h.keys
                  (record { filled = filled; trimmed = trim_idempotent draft }, tt);
          })
    ]

remove_key-AreKeys : (v : String) (xs : List String) → AreKeys xs → AreKeys (remove_key v xs)
unfolding remove_key
remove_key-AreKeys v xs h = record {
  distinct = filterb-IsDistinct (λ x. not (str_eq x v)) xs h.distinct;
  keys = All-filterb IsKey (λ x. not (str_eq x v)) xs h.keys;
}

pub record IsEditor {V : Type 0} (e : Editor V) : Type 0 where
  pub included : AreKeys e.included
  pub excluded : AreKeys e.excluded

module _ {N : Type 0} (texts : JsonText N) where
  edit-IsEditor : (d : Edit) (e : Editor (Json N)) → IsEditor e → IsEditor (edit texts d e)
  unfolding edit
  edit-IsEditor (includes_key draft) e h = record {
    included = add_key-AreKeys draft e.included h.included;
    excluded = h.excluded;
  }
  edit-IsEditor (drops_included v) e h = record {
    included = remove_key-AreKeys v e.included h.included;
    excluded = h.excluded;
  }
  edit-IsEditor (excludes_key draft) e h = record {
    included = h.included;
    excluded = add_key-AreKeys draft e.excluded h.excluded;
  }
  edit-IsEditor (drops_excluded v) e h = record {
    included = h.included;
    excluded = remove_key-AreKeys v e.excluded h.excluded;
  }
  edit-IsEditor (changes_rule i r) e h = record { included = h.included; excluded = h.excluded }
  edit-IsEditor (removes_rule i) e h = record { included = h.included; excluded = h.excluded }
  edit-IsEditor adds_rule e h = record { included = h.included; excluded = h.excluded }

  edit_all-IsEditor :
      (edits : List Edit) (e : Editor (Json N)) → IsEditor e → IsEditor (edit_all texts edits e)
  unfolding edit_all
  edit_all-IsEditor [] e h = h
  edit_all-IsEditor (d ∷ edits) e h = edit_all-IsEditor edits (edit texts d e) (edit-IsEditor d e h)

  -- What is saved after any edits of a segment whose lists hold distinct keys, not empty and trimmed:
  -- lists of such keys, with the name, the description and the lists of other contexts of the
  -- segment as they were.
  pub save-edit_all :
      (edits : List Edit) (s : Segment (Json N))
      → AreKeys s.included
      → AreKeys s.excluded
      → let body = save s (edit_all texts edits (open_editor s)) in
        ((AreKeys body.included × AreKeys body.excluded)
          × ((body.name ≡ s.name) × (body.description ≡ s.description)))
        × ((body.included_contexts ≡ s.included_contexts)
            × (body.excluded_contexts ≡ s.excluded_contexts))
  unfolding save
  save-edit_all edits s included excluded =
      let e =
        edit_all-IsEditor edits (open_editor s)
          (record { included = included; excluded = excluded }) in
      (((e.included, e.excluded), (refl, refl)), (refl, refl))
