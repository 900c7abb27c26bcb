-- ===== src/Backend/Segments.antt =====
-- The segments of web/src/mocks/handlers.ts. `uuid` is `crypto.randomUUID`.
pub mod Lookup
use flag_it.Common.{
  ℕ, suc, ◌+◌, Bool, true, false, Option, none, some, String, List, [], ◌∷◌, ◌++◌, not, map, str_eq,
  if◌then◌else◌, find, filterb,
}
use flag_it.Flags.{SegmentRule, SegmentTarget, Segment}

-- `a ?? b`
abbrev pub or_else : {A : Type 0} → Option A → A → A
or_else none b = b
or_else (some a) b = a

-- The body of a PUT, `Partial<Segment>`, of which the handler reads these fields.
pub record SegmentBody (V : Type 0) : Type 0 where
  pub name : Option String
  pub description : Option String
  pub included : Option (List String)
  pub excluded : Option (List String)
  pub included_contexts : Option (List SegmentTarget)
  pub excluded_contexts : Option (List SegmentTarget)
  pub rules : Option (List (SegmentRule V))

-- `mockSegments`, and the number of ids that were handed out.
pub record SegmentStore (V : Type 0) : Type 0 where
  pub segments : List (Segment V)
  pub issued : ℕ

module _ {V : Type 0} where
  abbrev pub has_key : String → Segment V → Bool
  has_key key s = str_eq s.key key

  abbrev pub id_of : Option (Segment V) → Option String
  id_of none = none
  id_of (some s) = some s.id

  abbrev pub version_of : Option (Segment V) → ℕ
  version_of none = 0
  version_of (some s) = s.version

  abbrev pub created_at_of : Option (Segment V) → Option String
  created_at_of none = none
  created_at_of (some s) = some s.created_at

  abbrev pub saved : String → SegmentBody V → Option (Segment V) → String → Segment V
  saved key body existing fresh = record {
    id = or_else (id_of existing) fresh;
    project_id = "p1";
    key = key;
    name = or_else body.name key;
    description = or_else body.description "";
    included = or_else body.included [];
    excluded = or_else body.excluded [];
    included_contexts = or_else body.included_contexts [];
    excluded_contexts = or_else body.excluded_contexts [];
    rules = or_else body.rules [];
    version = version_of existing + 1;
    created_at = or_else (created_at_of existing) "2026-07-12T00:00:00Z";
    updated_at = "2026-07-12T00:00:00Z";
  }

  unfoldable pub replace_key : String → Segment V → List (Segment V) → List (Segment V)
  replace_key key segment segments = map (λ s. if has_key key s then segment else s) segments

  -- `GET …/segments/:segKey`, `none` for the status 404.
  unfoldable pub get_segment : String → SegmentStore V → Option (Segment V)
  get_segment key store = find (has_key key) store.segments

  unfoldable pub put_found :
      (ℕ → String)
      → Option (Segment V)
      → String
      → SegmentBody V
      → SegmentStore V
      → SegmentStore V × Segment V
  unfolding replace_key
  put_found uuid none key body store =
      let segment = saved key body none (uuid store.issued) in
      (record { segments = store.segments ++ segment ∷ []; issued = suc store.issued }, segment)
  put_found uuid (some s) key body store =
      let segment = saved key body (some s) s.id in
      (record store { segments = replace_key key segment store.segments }, segment)

  -- `PUT …/segments/:segKey`
  unfoldable pub put_segment :
      (ℕ → String) → String → SegmentBody V → SegmentStore V → SegmentStore V × Segment V
  unfolding put_found
  put_segment uuid key body store =
      put_found uuid (find (has_key key) store.segments) key body store

  -- `DELETE …/segments/:segKey`
  unfoldable pub delete_segment : String → SegmentStore V → SegmentStore V
  delete_segment key store = record store {
    segments = filterb (λ s. not (has_key key s)) store.segments;
  }
