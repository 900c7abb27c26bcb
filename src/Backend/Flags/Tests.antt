-- ===== src/Backend/Flags/Tests.antt =====
-- Flags that are saved, deleted and listed.
use flag_it.Common.{ℕ, true, Bool, none, some, String, List, [], ◌∷◌, ◌≡◌, refl, map}
use flag_it.Flags.{FlagInstruction}
use flag_it.Backend.Store.{
  json, Route, Store, lookup, config_key, config_at, put, patch_config, apply_at,
}
use flag_it.Backend.Flags.{
  FlagBody, FlagStore, put_flag, put_in, includes_any, list_env_flags, list_lifecycle,
}
use flag_it.Backend.Flags.Lists.{switched, list_env_flags-patch_config}

abbrev id_text : ℕ → String
id_text n = "x"

abbrev same : String → String
same s = s

abbrev body : FlagBody ℕ
body = record {
  name = "Dark mode";
  description = none;
  client_side_available = some true;
  temporary = none;
  variations = 1 ∷ 0 ∷ [];
}

abbrev nothing : FlagStore ℕ
nothing = record { flags = []; issued = 0 }

abbrev two_flags : FlagStore ℕ
two_flags = (put_flag id_text "pricing-tier" body (put_flag id_text "dark" body nothing).0).0

abbrev route : Route
route = record { project_key = "p1"; env_key = "production"; flag_key = "dark" }

abbrev turn_on : List (FlagInstruction ℕ)
turn_on =
    record {
      kind = "turnFlagOn";
      variation = none;
      context_kind = none;
      values = none;
      clauses = none;
      rollout = none;
      rule_id = none;
      rule_ids = none;
    }
    ∷ []

abbrev start : Store ℕ
start = record { configs = []; changes = []; scheduled = []; issued = 0 }

list_env_flags-patch_config_example :
    let after = patch_config id_text route turn_on start in
    let c = config_at (config_key "dark" "production") after.0 in
    (after.1 ≡ json c)
    × (list_env_flags same "production" (some "dark") two_flags after.0.configs
        ≡ map
            (switched "dark" c)
            (list_env_flags same "production" (some "dark") two_flags start.configs))
list_env_flags-patch_config_example =
    list_env_flags-patch_config id_text route turn_on start same (some "dark") two_flags

listed_test :
    map {B = String × Bool}
      (λ row. (row.flag.key, row.on))
      (list_env_flags same "production"
        (some "dark")
        two_flags
        (patch_config id_text route turn_on start).0.configs)
    ≡ ("dark", true) ∷ []
unfolding list_env_flags put_flag put_in includes_any patch_config apply_at put lookup
listed_test = refl

lifecycle_test : map (λ f. f.flag.key) (list_lifecycle two_flags) ≡ "dark" ∷ "pricing-tier" ∷ []
unfolding list_lifecycle put_flag put_in
lifecycle_test = refl
