-- ===== src/Dashboard/RuleForm.antt =====
-- The form of a targeting rule, web/src/features/flags/components: RuleForm.tsx, with the edits of
-- RolloutEditor.tsx. `count` is the number of the flag's variations.
pub mod Submit
pub mod Reopen
use flag_it.Common.{
  ℕ, zero, suc, ◌+◌, Bool, true, false, Option, none, some, String, List, [], ◌∷◌, ◌++◌, not, ◌&&◌,
  ◌||◌, ◌==◌, leb, str_eq, if◌then◌else◌, ℤ, pos, negsuc, all, set,
}
use flag_it.Flags.{Clause, Rollout, VariationOrRollout}
use flag_it.Dashboard.Trim.{trim}
use flag_it.Dashboard.Rollouts.{
  sum, even_percents, if_filled, rollout_from_percents, percents_from_rollout,
}

pub data ServeMode : Type 0 where
  by_variation : ServeMode
  by_rollout : ServeMode

-- The state of the form.
pub record Form (V : Type 0) : Type 0 where
  pub draft : List (Clause V)
  pub serve : ServeMode
  pub variation : ℕ
  pub percents : List ℕ
  pub bucket_by : String
  pub context_kind : String
  pub seed : Option ℕ

-- `clampPercent`, of the number that the text is rounded to, `none` for `NaN`.
abbrev pub clamp_percent : Option ℤ → ℕ
clamp_percent none = 0
clamp_percent (some (pos n)) = if leb n 100 then n else 100
clamp_percent (some (negsuc n)) = 0

abbrev pub or_blank : Option String → String
or_blank none = ""
or_blank (some s) = s

abbrev pub or_zero : Option ℕ → ℕ
or_zero none = 0
or_zero (some n) = n

abbrev pub is_filled : Option String → Bool
is_filled none = false
is_filled (some s) = not (str_eq s "")

-- `initialServe?.rollout`
abbrev pub rollout_of : Option VariationOrRollout → Option Rollout
rollout_of none = none
rollout_of (some s) = s.rollout

abbrev pub variation_of : Option VariationOrRollout → Option ℕ
variation_of none = none
variation_of (some s) = s.variation

abbrev pub mode_of : Option Rollout → ServeMode
mode_of none = by_variation
mode_of (some r) = by_rollout

abbrev pub start_percents : ℕ → Option Rollout → List ℕ
start_percents count none = even_percents count
start_percents count (some r) = percents_from_rollout (some r) count

abbrev pub bucket_by_of : Option Rollout → Option String
bucket_by_of none = none
bucket_by_of (some r) = r.bucket_by

abbrev pub context_kind_of : Option Rollout → Option String
context_kind_of none = none
context_kind_of (some r) = r.context_kind

abbrev pub seed_of : Option Rollout → Option ℕ
seed_of none = none
seed_of (some r) = r.seed

abbrev pub is_by_variation : ServeMode → Bool
is_by_variation by_variation = true
is_by_variation by_rollout = false

-- What the user does to the form.
pub data Edit (V : Type 0) : Type 0 where
  change_clause : ℕ → Clause V → Edit V
  remove_clause : ℕ → Edit V
  add_clause : Edit V
  choose_mode : ServeMode → Edit V
  choose_variation : ℕ → Edit V
  type_percent : ℕ → Option ℤ → Edit V
  type_bucket_by : String → Edit V
  type_context_kind : String → Edit V
  reshuffle : ℕ → Edit V
  reset_seed : Edit V

module _ {V : Type 0} where
  abbrev pub new_clause : Clause V
  new_clause = record {
    context_kind = some "user";
    attribute = some "";
    op = "in";
    values = [];
    negate = some false;
  }

  abbrev pub start_clauses : Option (List (Clause V)) → List (Clause V)
  start_clauses none = new_clause ∷ []
  start_clauses (some []) = new_clause ∷ []
  start_clauses (some (c ∷ clauses)) = c ∷ clauses

  -- The form as it opens, and as it is reset.
  unfoldable pub open_form : ℕ → Option (List (Clause V)) → Option VariationOrRollout → Form V
  unfolding even_percents percents_from_rollout
  open_form count initial_clauses initial_serve = record {
    draft = start_clauses initial_clauses;
    serve = mode_of (rollout_of initial_serve);
    variation = or_zero (variation_of initial_serve);
    percents = start_percents count (rollout_of initial_serve);
    bucket_by = or_blank (bucket_by_of (rollout_of initial_serve));
    context_kind = or_blank (context_kind_of (rollout_of initial_serve));
    seed = seed_of (rollout_of initial_serve);
  }

  abbrev pub remove_at : ℕ → List (Clause V) → List (Clause V)
  remove_at i [] = []
  remove_at zero (c ∷ clauses) = clauses
  remove_at (suc i) (c ∷ clauses) = c ∷ remove_at i clauses

  unfoldable pub edit : Edit V → Form V → Form V
  edit (change_clause i c) f = record f { draft = set f.draft i c }
  edit (remove_clause i) f = record f { draft = remove_at i f.draft }
  edit add_clause f = record f { draft = f.draft ++ new_clause ∷ [] }
  edit (choose_mode m) f = record f { serve = m }
  edit (choose_variation v) f = record f { variation = v }
  edit (type_percent i n) f = record f { percents = set f.percents i (clamp_percent n) }
  edit (type_bucket_by s) f = record f { bucket_by = s }
  edit (type_context_kind s) f = record f { context_kind = s }
  edit (reshuffle n) f = record f { seed = some n }
  edit reset_seed f = record f { seed = none }

  unfoldable pub edit_all : List (Edit V) → Form V → Form V
  unfolding edit
  edit_all [] f = f
  edit_all (e ∷ edits) f = edit_all edits (edit e f)

  abbrev pub is_nonempty : List V → Bool
  is_nonempty [] = false
  is_nonempty (v ∷ values) = true

  abbrev pub is_drafted : List (Clause V) → Bool
  is_drafted [] = false
  is_drafted (c ∷ clauses) = true

  abbrev pub is_clause_valid : Clause V → Bool
  is_clause_valid c = is_filled c.attribute && is_nonempty c.values

  unfoldable pub can_submit : Form V → Bool
  unfolding sum
  can_submit f =
      (is_drafted f.draft && all is_clause_valid f.draft)
      && (is_by_variation f.serve || sum f.percents == 100)

  abbrev pub serve_by : ServeMode → Form V → VariationOrRollout
  serve_by by_variation f = record { variation = some f.variation; rollout = none }
  serve_by by_rollout f = record {
    variation = none;
    rollout = some (
        rollout_from_percents f.percents (if_filled (trim f.bucket_by))
          (if_filled (trim f.context_kind)) f.seed);
  }

  unfoldable pub served : Form V → VariationOrRollout
  unfolding rollout_from_percents trim
  served f = serve_by f.serve f

  -- `submit`: what `onSubmit` is called with, if anything, and the form it leaves.
  unfoldable pub submit :
      ℕ
      → Option (List (Clause V))
      → Option VariationOrRollout
      → Form V
      → Option (List (Clause V) × VariationOrRollout) × Form V
  unfolding can_submit served open_form
  submit count initial_clauses initial_serve f =
      if can_submit f
      then (some (f.draft, served f), open_form count initial_clauses initial_serve)
      else (none, f)
