-- ===== src/Dashboard/SegmentEditor/Tests.antt =====
-- A segment in the editor.
use flag_it.Common.{some, ℕ, ◌≡◌, refl, false, none, String, List, [], ◌∷◌}
use flag_it.Sdk.Json.{Json}
use flag_it.Flags.{Segment}
use flag_it.Dashboard.Trim.{trim}
use flag_it.Dashboard.Clauses.{JsonText}
use flag_it.Dashboard.SegmentEditor.{
  Edit, includes_key, drops_included, excludes_key, changes_rule, changes_clause, picks_op,
  adds_rule, open_editor, save, edit, edit_all, edit_rule, edit_clause, add_key, remove_key,
  changed_at, dirty,
}
use flag_it.Backend.Segments.{SegmentStore, get_segment, put_segment}
use flag_it.Dashboard.SegmentEditor.Served.{body_of, Shows, save-put_segment}
use flag_it.Dashboard.SegmentEditor.Laws.{AreKeys, save-edit_all}

-- No number and no boolean is typed in the tests.
abbrev texts : JsonText ℕ
texts = record { parse = λ t. none; stringify = λ v. "" }

abbrev beta : List String → Segment (Json ℕ)
beta included = record {
  id = "s1";
  project_id = "p1";
  key = "beta";
  name = "Beta";
  description = "First in line";
  included = included;
  excluded = [];
  included_contexts = [];
  excluded_contexts = [];
  rules = [];
  version = 3;
  created_at = "";
  updated_at = "";
}

abbrev edits : List Edit
edits =
    includes_key " ada "
    ∷ includes_key "ann"
    ∷ drops_included "ann"
    ∷ excludes_key "bob"
    ∷ adds_rule
    ∷ changes_rule 0 (changes_clause 0 (picks_op "contains"))
    ∷ []

save_test :
    (save (beta ("ann" ∷ [])) (edit_all texts edits (open_editor (beta ("ann" ∷ []))))).included
    ≡ "ada" ∷ []
unfolding save edit_all edit add_key remove_key changed_at edit_rule edit_clause trim
save_test = refl

save-edit_all_example :
    let s = beta ("ann" ∷ []) in
    let body = save s (edit_all texts edits (open_editor s)) in
    ((AreKeys body.included × AreKeys body.excluded)
      × ((body.name ≡ s.name) × (body.description ≡ s.description)))
    × ((body.included_contexts ≡ s.included_contexts)
        × (body.excluded_contexts ≡ s.excluded_contexts))
unfolding trim
save-edit_all_example =
    save-edit_all texts edits (beta ("ann" ∷ []))
      (record { distinct = (refl, tt); keys = (record { filled = refl; trimmed = refl }, tt) })
      (record { distinct = tt; keys = tt })

-- Two keys in place of one that has a space in it are no change.
space_test :
    dirty
      (λ rules. "")
      (beta ("a b" ∷ []))
      (record { included = "a" ∷ "b" ∷ []; excluded = []; rules = [] })
    ≡ false
unfolding dirty
space_test = refl

-- It was saved by somebody else since it was opened.
abbrev newer : Segment (Json ℕ)
newer = record (beta ("eve" ∷ [])) { version = 4; created_at = "2026-07-01T00:00:00Z" }

abbrev stored : SegmentStore (Json ℕ)
stored = record { segments = newer ∷ []; issued = 1 }

save-put_segment_example :
    let s = beta ("ann" ∷ []) in
    let e = edit_all texts edits (open_editor s) in
    let (after, t) = put_segment (λ n. "x") s.key (body_of (save s e)) stored in
    (get_segment s.key after ≡ some t) × (Shows e s newer t × (dirty (λ rules. "") t e ≡ false))
unfolding get_segment
save-put_segment_example =
    save-put_segment (λ n. "x") (λ rules. "") (beta ("ann" ∷ [])) newer
      (edit_all texts edits (open_editor (beta ("ann" ∷ [])))) stored refl
