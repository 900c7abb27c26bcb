-- ===== src/Backend/Flags.antt =====
-- The flags of web/src/mocks/handlers.ts: `mockFlags` and the handlers of flags, the list of them in an
-- environment among them. `uuid` is `crypto.randomUUID`, and `lower` is `toLowerCase`.
pub mod Lookup
pub mod Lists
mod Tests
use text.Mathlib.Text.{find?}
use flag_it.Common.{
  ℕ, suc, Bool, true, false, Option, none, some, String, List, [], ◌∷◌, not, map, str_eq, ◌||◌, any,
  if◌then◌else◌, find, filterb,
}
use flag_it.Flags.{
  FlagConfig, Flag, LifecycleStatus, active, inactive, FlagLifecycle, FlagWithState,
}
use flag_it.Backend.Store.{lookup, config_key}
use flag_it.Backend.Segments.{or_else}

-- The body of a PUT.
pub record FlagBody (V : Type 0) : Type 0 where
  pub name : String
  pub description : Option String
  pub client_side_available : Option Bool
  pub temporary : Option Bool
  pub variations : List V

-- `mockFlags`, and the number of ids that were handed out.
pub record FlagStore (V : Type 0) : Type 0 where
  pub flags : List (Flag V)
  pub issued : ℕ

-- `text.includes(q)`
abbrev pub includes_text : String → String → Bool
includes_text text q = elim (find? text q) [ none ↦ false | some n ↦ true ]

-- `includesAny`
unfoldable pub includes_any : (String → String) → String → List String → Bool
includes_any lower q fields = str_eq q "" || any (λ f. includes_text (lower f) q) fields

-- `searchParam`
abbrev pub search_param : (String → String) → Option String → String
search_param lower search_text = lower (or_else search_text "")

abbrev pub last_evaluated_of : LifecycleStatus → String
last_evaluated_of inactive = "2026-05-01T00:00:00Z"
last_evaluated_of _ = "2026-07-12T00:00:00Z"

module _ {V : Type 0} where
  abbrev pub has_flag_key : String → Flag V → Bool
  has_flag_key key f = str_eq f.key key

  -- `GET …/flags/:flagKey`, `none` for the status 404.
  unfoldable pub get_flag : String → FlagStore V → Option (Flag V)
  get_flag key store = find (has_flag_key key) store.flags

  -- The flag in the place of the first one of its key, or at the end.
  unfoldable pub put_in : Flag V → List (Flag V) → List (Flag V)
  put_in flag [] = flag ∷ []
  put_in flag (f ∷ flags) = if has_flag_key flag.key f then flag ∷ flags else f ∷ put_in flag flags

  abbrev pub saved_flag : String → String → FlagBody V → Flag V
  saved_flag id key body = record {
    id = id;
    project_id = "p1";
    key = key;
    name = body.name;
    description = or_else body.description "";
    client_side_available = or_else body.client_side_available false;
    temporary = or_else body.temporary false;
    variations = body.variations;
    created_at = "2026-07-12T00:00:00Z";
    updated_at = "2026-07-12T00:00:00Z";
  }

  -- `PUT …/flags/:flagKey`
  unfoldable pub put_flag : (ℕ → String) → String → FlagBody V → FlagStore V → FlagStore V × Flag V
  unfolding put_in
  put_flag uuid key body store =
      let flag = saved_flag (uuid store.issued) key body in
      (record { flags = put_in flag store.flags; issued = suc store.issued }, flag)

  -- `DELETE …/flags/:flagKey`
  unfoldable pub delete_flag : String → FlagStore V → FlagStore V
  delete_flag key store = record store {
    flags = filterb (λ f. not (has_flag_key key f)) store.flags;
  }

  abbrev pub lifecycle_of : Flag V → LifecycleStatus
  lifecycle_of f = if str_eq f.key "pricing-tier" then inactive else active

  -- `GET …/flags/lifecycle`
  unfoldable pub list_lifecycle : FlagStore V → List (FlagLifecycle V)
  list_lifecycle store =
      map
        (λ f. record {
          flag = f;
          status = lifecycle_of f;
          last_evaluated = some (last_evaluated_of (lifecycle_of f));
        })
        store.flags

  -- `flagConfigs[k]?.on ?? false`
  abbrev pub on_of : Option (FlagConfig V) → Bool
  on_of none = false
  on_of (some c) = c.on

  -- `GET …/environments/:envKey/flags`, over `flagConfigs`.
  unfoldable pub list_env_flags :
      (String → String)
      → String
      → Option String
      → FlagStore V
      → List (String × FlagConfig V)
      → List (FlagWithState V)
  unfolding includes_any lookup
  list_env_flags lower env_key search_text store configs =
      map (λ f. record { flag = f; on = on_of (lookup (config_key f.key env_key) configs) })
        (filterb
          (λ f.
            includes_any lower (search_param lower search_text)
              (f.key ∷ f.name ∷ f.description ∷ []))
          store.flags)
