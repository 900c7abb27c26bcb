-- ===== src/Dashboard/Shares.antt =====
-- The bars of evaluations: web/src/features/analytics/components/StatsBars.tsx, with the rows that
-- features/analytics/FlagStatsSection.tsx and AnalyticsPage.tsx make, and the labels of variations,
-- web/src/lib/variations.ts and features/flags/components/FlagConfigCard.tsx. `share` is
-- `Math.round((count / total) * 100)` on floating point numbers, and `decimal` the text of a number.
pub mod Laws
mod Tests
use flag_it.Common.{
  ℕ, ◌+◌, ◌*◌, ◌≤◌, ◌<◌, ◌==◌, ◌||◌, Bool, Option, none, some, String, List, [], ◌∷◌, map, ltb,
  length, get_elem?, if◌then◌else◌,
}
use flag_it.Sdk.Json.{Json}
use flag_it.Flags.{FlagConfig, VariationOrRollout}
use flag_it.Dashboard.Api.{◌<>◌}
use flag_it.Dashboard.Clauses.{JsonText, shown}

pub record StatsBarRow : Type 0 where
  pub key : String
  pub label : String
  pub count : ℕ

pub record VariationCount : Type 0 where
  pub variation : ℕ
  pub count : ℕ

-- What the server says of a flag.
pub record FlagStats : Type 0 where
  pub flag_key : String
  pub environment : String
  pub since : String
  pub variations : List VariationCount
  pub total : ℕ

pub record FlagCount : Type 0 where
  pub flag_key : String
  pub count : ℕ

-- What the server says of an environment.
pub record EnvStats : Type 0 where
  pub environment : String
  pub since : String
  pub flags : List FlagCount
  pub total : ℕ

pub record Bar : Type 0 where
  pub row : StatsBarRow
  pub percent : ℕ

-- What is shown: the label for nothing, or a bar for each row.
pub data Bars : Type 0 where
  nothing : Bars
  bars : List Bar → Bars

module _ (share : ℕ → ℕ → ℕ) where
  abbrev pub pct : ℕ → ℕ → ℕ
  pct count total = if ltb 0 total then share count total else 0

  abbrev pub bar_of : ℕ → StatsBarRow → Bar
  bar_of total row = record { row = row; percent = pct row.count total }

  unfoldable pub stats_bars : List StatsBarRow → ℕ → Bars
  stats_bars rows total =
      if total == 0 || length rows == 0 then nothing else bars (map (bar_of total) rows)

module _ {N : Type 0} (texts : JsonText N) (decimal : ℕ → String) where
  abbrev pub label_at : Option (Json N) → ℕ → String
  label_at none index = "#" <> decimal index
  label_at (some v) index = shown texts v

  unfoldable pub variation_label : List (Json N) → ℕ → String
  variation_label variations index = label_at (get_elem? variations index) index

  abbrev pub served_label : VariationOrRollout → List (Json N) → String
  unfolding variation_label
  served_label served variations = elim served.rollout [
    | some r ↦ "a percentage rollout"
    | none ↦ elim served.variation [ some v ↦ variation_label variations v | none ↦ "—" ]
  ]

  -- `fallthroughLabel`
  unfoldable pub fallthrough_label : FlagConfig (Json N) → List (Json N) → String
  unfolding variation_label
  fallthrough_label config variations = served_label config.fallthrough variations

  -- The rows of the variations of a flag.
  unfoldable pub flag_rows : List (Json N) → FlagStats → List StatsBarRow
  unfolding variation_label
  flag_rows variations stats =
      map
        (λ v. record {
          key = decimal v.variation;
          label = variation_label variations v.variation;
          count = v.count;
        })
        stats.variations

-- The rows of the flags of an environment.
unfoldable pub env_rows : EnvStats → List StatsBarRow
env_rows stats =
    map (λ f. record { key = f.flag_key; label = f.flag_key; count = f.count }) stats.flags

-- The replies of web/src/mocks/handlers.ts, of the numbers that it has: the total is their sum.
unfoldable pub total_of : List ℕ → ℕ
total_of [] = 0
total_of (c ∷ counts) = c + total_of counts

abbrev pub stats_of_flag : String → String → Option String → List VariationCount → FlagStats
unfolding total_of
stats_of_flag flag_key environment since variations = record {
  flag_key = flag_key;
  environment = environment;
  since = elim since [ none ↦ "24h" | some s ↦ s ];
  variations = variations;
  total = total_of (map (λ v. v.count) variations);
}

abbrev pub stats_of_env : String → Option String → List FlagCount → EnvStats
unfolding total_of
stats_of_env environment since flags = record {
  environment = environment;
  since = elim since [ none ↦ "24h" | some s ↦ s ];
  flags = flags;
  total = total_of (map (λ f. f.count) flags);
}
