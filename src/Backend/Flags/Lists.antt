-- ===== src/Backend/Flags/Lists.antt =====
-- What the list of the flags of an environment shows after a configuration was patched.
use text.Mathlib.TextLemmas.{append_cancel_right}
use text.Mathlib.TextEquality.{eq_iff}
use flag_it.Common.{
  ℕ, false, Option, String, List, [], ◌∷◌, ◌≡◌, refl, sym, ap, ◌∙◌, map, str_eq, never_both,
  if◌then◌else◌, Bool-cases, inl, inr, filterb,
}
use flag_it.Flags.{FlagConfig, FlagInstruction, Flag, FlagWithState}
use flag_it.Backend.Store.{
  json, Route, Store, lookup, put, or_new, config_key, config_at, patch_config, apply_at,
}
use flag_it.Backend.Store.Lookups.{lookup-put, lookup-put_other}
use flag_it.Backend.Instructions.{apply_instructions}
use flag_it.Backend.Flags.{FlagStore, on_of, includes_any, search_param, list_env_flags}

-- Flags of one environment share a key of the table only if they share their own.
str_eq-config_key :
    (f g env : String) → str_eq f g ≡ false → str_eq (config_key f env) (config_key g env) ≡ false
str_eq-config_key f g env differs =
    elim (Bool-cases (str_eq (config_key f env) (config_key g env))) [
      | inl same ↦
          let equal =
            append_cancel_right f g _ ((eq_iff (config_key f env) (config_key g env)).0 same) in
          absurd (never_both (str_eq f g) ((eq_iff f g).1 equal) differs)
      | inr other ↦ other
    ]

module _ {V : Type 0} where
  -- The row again, with the switch of the configuration if it is the row of the flag.
  abbrev pub switched : String → FlagConfig V → FlagWithState V → FlagWithState V
  switched key c row = if str_eq key row.flag.key then record row { on = c.on } else row

  -- The row of a flag.
  abbrev row : String → List (String × FlagConfig V) → Flag V → FlagWithState V
  row env configs f = record { flag = f; on = on_of (lookup (config_key f.key env) configs) }

  row-put :
      (key env : String) (c : FlagConfig V) (f : Flag V) (configs : List (String × FlagConfig V))
      → row env (put (config_key key env) c configs) f ≡ switched key c (row env configs f)
  row-put key env c f configs = elim (Bool-cases (str_eq key f.key)) [
    | inl same ↦ rw same (
        ap
          (λ k. record {
            flag = f;
            on = on_of (lookup (config_key k env) (put (config_key key env) c configs));
          })
          (sym ((eq_iff key f.key).0 same))
        ∙ ap (λ o. record { flag = f; on = on_of o }) (lookup-put (config_key key env) c configs))
    | inr other ↦ rw other (
        ap (λ o. record { flag = f; on = on_of o })
          (lookup-put_other (config_key key env) (config_key f.key env) c configs
            (str_eq-config_key key f.key env other)))
  ]

  rows-put :
      (key env : String) (c : FlagConfig V) (flags : List (Flag V))
      (configs : List (String × FlagConfig V))
      → map (row env (put (config_key key env) c configs)) flags
        ≡ map (switched key c) (map (row env configs) flags)
  rows-put key env c [] configs = refl
  rows-put key env c (f ∷ flags) configs =
      ap (λ r. r ∷ map (row env (put (config_key key env) c configs)) flags)
        (row-put key env c f configs)
      ∙ ap (λ rs. switched key c (row env configs f) ∷ rs) (rows-put key env c flags configs)

  -- After a patch of the configuration of a flag in an environment, the reply is the configuration that
  -- is stored then, and the list of the environment, under any search, has the same rows as before, but
  -- that the row of the flag is switched as the configuration is.
  pub list_env_flags-patch_config :
      (uuid : ℕ → String) (route : Route) (instructions : List (FlagInstruction V)) (s : Store V)
      (lower : String → String) (search_text : Option String) (store : FlagStore V)
      → let after = patch_config uuid route instructions s in
        let c = config_at (config_key route.flag_key route.env_key) after.0 in
        (after.1 ≡ json c)
        × (list_env_flags lower route.env_key search_text store after.0.configs
            ≡ map
                (switched route.flag_key c)
                (list_env_flags lower route.env_key search_text store s.configs))
  unfolding patch_config apply_at config_at list_env_flags
  list_env_flags-patch_config uuid route instructions s lower search_text store =
      let k = config_key route.flag_key route.env_key in
      let shown =
        filterb
          (λ f.
            includes_any lower (search_param lower search_text)
              (f.key ∷ f.name ∷ f.description ∷ []))
          store.flags in
      let c =
        (apply_instructions uuid instructions
          (record { config = config_at k s; issued = s.issued })).config in
      (
        refl,
        rows-put route.flag_key route.env_key c shown s.configs
            ∙ ap
                (λ o.
                  map (switched route.flag_key (or_new o))
                    (map (row route.env_key s.configs) shown))
                (sym (lookup-put k c s.configs)),
      )
