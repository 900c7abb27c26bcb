-- ===== src/Dashboard/SegmentEditor/Served.antt =====
-- The editor of a segment and the handler that saves it, together.
use flag_it.Common.{ℕ, ◌+◌, false, some, String, List, ◌≡◌, refl, eq_refl}
use flag_it.Flags.{Segment, SegmentRule}
use flag_it.Backend.Segments.{SegmentBody, SegmentStore, get_segment, put_found, put_segment}
use flag_it.Backend.Segments.Lookup.{get-put_segment_self}
use flag_it.Dashboard.SegmentEditor.{Editor, SaveInput, save, dirty, join_spaces}

module _ {V : Type 0} where
  -- The body of the request, in which every field is given.
  abbrev pub body_of : SaveInput V → SegmentBody V
  body_of input = record {
    name = some input.name;
    description = some input.description;
    included = some input.included;
    excluded = some input.excluded;
    included_contexts = some input.included_contexts;
    excluded_contexts = some input.excluded_contexts;
    rules = some input.rules;
  }

  -- The segment has the keys and rules that the editor shows, what the editor does not edit from the
  -- segment that was opened, its id and its creation from the one that was stored, and the project and
  -- the time that the handler writes.
  pub record Shows (e : Editor V) (opened stored s : Segment V) : Type 0 where
    pub included : s.included ≡ e.included
    pub excluded : s.excluded ≡ e.excluded
    pub rules : s.rules ≡ e.rules
    pub key : s.key ≡ opened.key
    pub name : s.name ≡ opened.name
    pub description : s.description ≡ opened.description
    pub included_contexts : s.included_contexts ≡ opened.included_contexts
    pub excluded_contexts : s.excluded_contexts ≡ opened.excluded_contexts
    pub id : s.id ≡ stored.id
    pub created_at : s.created_at ≡ stored.created_at
    pub version : s.version ≡ stored.version + 1
    pub project_id : s.project_id ≡ "p1"
    pub updated_at : s.updated_at ≡ "2026-07-12T00:00:00Z"

  put_segment-Shows :
      (uuid : ℕ → String) (opened stored : Segment V) (e : Editor V) (store : SegmentStore V)
      → get_segment opened.key store ≡ some stored
      → Shows e opened stored (put_segment uuid opened.key (body_of (save opened e)) store).1
  unfolding save get_segment put_segment put_found
  put_segment-Shows uuid opened stored e store found = rw found record {
    included = refl;
    excluded = refl;
    rules = refl;
    key = refl;
    name = refl;
    description = refl;
    included_contexts = refl;
    excluded_contexts = refl;
    id = refl;
    created_at = refl;
    version = refl;
    project_id = refl;
    updated_at = refl;
  }

  -- An editor that shows what a segment has finds nothing to save.
  dirty-Shows :
      (stringify : List (SegmentRule V) → String) (e : Editor V) (opened stored s : Segment V)
      → Shows e opened stored s
      → dirty stringify s e ≡ false
  unfolding dirty
  dirty-Shows stringify e opened stored s h =
      rw (h.included, h.excluded, h.rules, eq_refl (join_spaces e.included))
        (rw (eq_refl (join_spaces e.excluded), eq_refl (stringify e.rules)) refl)

  -- After the editor saves a segment that is stored, the segment that is loaded under its key has the
  -- keys and rules of the editor; its key, its name, its description and its lists by context kind are
  -- those of the segment that was opened; its id and its creation are those of the stored one, and its
  -- version is one more. The handler writes the project "p1" and a fixed time of the update. The
  -- editor finds nothing to save any more.
  pub save-put_segment :
      (uuid : ℕ → String) (stringify : List (SegmentRule V) → String) (opened stored : Segment V)
      (e : Editor V) (store : SegmentStore V)
      → get_segment opened.key store ≡ some stored
      → let (after, t) = put_segment uuid opened.key (body_of (save opened e)) store in
        (get_segment opened.key after ≡ some t)
        × (Shows e opened stored t × (dirty stringify t e ≡ false))
  save-put_segment uuid stringify opened stored e store found =
      let shown = put_segment-Shows uuid opened stored e store found in
      (
        (get-put_segment_self uuid opened.key (body_of (save opened e)) store).0,
        (shown, dirty-Shows stringify e opened stored _ shown),
      )
