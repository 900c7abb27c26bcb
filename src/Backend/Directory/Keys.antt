-- ===== src/Backend/Directory/Keys.antt =====
-- SDK keys that were revoked, and installs that were set up.
use mathlib.Core.Path.{subst}
use text.Mathlib.TextEquality.{eq_iff}
use flag_it.Common.{
  ℕ, ◌<◌, false, String, List, [], ◌∷◌, ◌≡◌, refl, arith, All, All-append, All-filterb,
  filterb-keep, filterb-drop, str_eq, not, Bool-cases, inl, inr, filterb, ap, sym, if◌then◌else◌,
}
use flag_it.Backend.Store.{failure}
use flag_it.Backend.Directory.{
  Directory, DirectoryCall, SetupInput, completes_setup, deletes_organization, deletes_project,
  creates_role, adds_member, creates_project, creates_environment, creates_sdk_key, revokes_sdk_key,
  SdkKey, set_up, serve_directory, serve_all, create_sdk_key, complete_setup, delete_organization,
  delete_project, create_role, add_member, create_project, create_environment, post_sdk_key,
  revoke_sdk_key,
}

abbrev pub OtherThan : String → SdkKey → Type 0
OtherThan id k = str_eq k.id id ≡ false

-- A setup of an install that is set up is refused.
setup_refused :
    (uuid : ℕ → String) (input : SetupInput) (d : Directory)
    → d.needs_setup ≡ false
    → serve_directory uuid (completes_setup input) d ≡ (d, failure 409 "setup already complete")
unfolding complete_setup
setup_refused uuid input d h =
    ap
      (λ b.
        if b
        then set_up uuid input.organization_slug input d
        else (d, failure 409 "setup already complete"))
      h

module _ (uuid : ℕ → String) (injective : (m n : ℕ) → uuid m ≡ uuid n → m ≡ n) (i : ℕ) where
  -- The id was handed out, no key has it, and the setup is done.
  record IsGone (d : Directory) : Type 0 where
    later : i < d.issued
    others : All (OtherThan (uuid i)) d.sdk_keys
    ready : d.needs_setup ≡ false

  fresh : (n : ℕ) → i < n → str_eq (uuid n) (uuid i) ≡ false
  fresh n h = elim (Bool-cases (str_eq (uuid n) (uuid i))) [
    | inl same ↦
        let equal = injective n i ((eq_iff (uuid n) (uuid i)).0 same) in
        absurd (omega (arith, equal, h))
    | inr other ↦ other
  ]

  serve-IsGone :
      (c : DirectoryCall) (d : Directory) → IsGone d → IsGone (serve_directory uuid c d).0
  unfolding complete_setup delete_organization delete_project create_role add_member create_project
      create_environment post_sdk_key revoke_sdk_key
  serve-IsGone (completes_setup input) d h =
      subst (λ r. IsGone r.0) (sym (setup_refused uuid input d h.ready)) h
  serve-IsGone (deletes_organization slug) d h = record {
    later = h.later;
    others = h.others;
    ready = h.ready;
  }
  serve-IsGone (deletes_project key) d h = record {
    later = h.later;
    others = h.others;
    ready = h.ready;
  }
  serve-IsGone (revokes_sdk_key id) d h = record {
    later = h.later;
    others = All-filterb (OtherThan (uuid i)) (λ k. not (str_eq k.id id)) d.sdk_keys h.others;
    ready = h.ready;
  }
  serve-IsGone (creates_sdk_key kind name) d h = record {
    later = omega (arith, h.later);
    others =
        All-append (OtherThan (uuid i)) d.sdk_keys (create_sdk_key uuid kind name d ∷ []) h.others
          (fresh d.issued h.later, tt);
    ready = h.ready;
  }
  serve-IsGone (creates_role body) d h = record {
    later = omega (arith, h.later);
    others = h.others;
    ready = h.ready;
  }
  serve-IsGone (adds_member email role) d h = record {
    later = omega (arith, h.later);
    others = h.others;
    ready = h.ready;
  }
  serve-IsGone (creates_project key name) d h = record {
    later = omega (arith, h.later);
    others = h.others;
    ready = h.ready;
  }
  serve-IsGone (creates_environment key name) d h = record {
    later = omega (arith, h.later);
    others = h.others;
    ready = h.ready;
  }

  serve_all-IsGone :
      (calls : List DirectoryCall) (d : Directory) → IsGone d → IsGone (serve_all uuid calls d)
  unfolding serve_all
  serve_all-IsGone [] d h = h
  serve_all-IsGone (c ∷ calls) d h =
      serve_all-IsGone calls (serve_directory uuid c d).0 (serve-IsGone c d h)

  revoked :
      (keys : List SdkKey)
      → All (OtherThan (uuid i)) (filterb (λ k. not (str_eq k.id (uuid i))) keys)
  revoked [] = tt
  revoked (k ∷ keys) = elim (Bool-cases (str_eq k.id (uuid i))) [
    | inl same ↦
        rw (filterb-drop (λ k. not (str_eq k.id (uuid i))) k keys (rw same refl)) (revoked keys)
    | inr other ↦
        rw (filterb-keep (λ k. not (str_eq k.id (uuid i))) k keys (rw other refl))
          (other, revoked keys)
  ]

  -- On an install that is set up, after the SDK key of an id that was handed out is revoked and any
  -- calls are served, no SDK key has the id, and a setup is refused with the status 409 and changes
  -- nothing, if no id is handed out twice.
  pub serve_all-revokes_sdk_key :
      (calls : List DirectoryCall) (d : Directory) (input : SetupInput)
      → i < d.issued
      → d.needs_setup ≡ false
      → let after = serve_all uuid calls (serve_directory uuid (revokes_sdk_key (uuid i)) d).0 in
        All (OtherThan (uuid i)) after.sdk_keys
        × (serve_directory uuid (completes_setup input) after
            ≡ (after, failure 409 "setup already complete"))
  unfolding revoke_sdk_key
  serve_all-revokes_sdk_key calls d input later ready =
      let gone =
        serve_all-IsGone calls (serve_directory uuid (revokes_sdk_key (uuid i)) d).0
          (record { later = later; others = revoked d.sdk_keys; ready = ready }) in
      (gone.others, setup_refused uuid input _ gone.ready)
