-- ===== src/Dashboard/Shares/Tests.antt =====
-- The bars of two variations.
use flag_it.Common.{ℕ, ◌+◌, ◌*◌, ◌/◌, ◌≤◌, ◌<◌, List, [], ◌∷◌, ◌≡◌, refl, map, All, length, arith}
use native.Mathlib.Nat.{mul-div-le, lt-mul-div-succ, mul_assoc, mul-add}
use flag_it.Dashboard.Shares.{StatsBarRow, bar_of, bars, stats_bars, total_of}
use flag_it.Dashboard.Shares.Laws.{IsRounding, counts, percents, stats_bars-sum}

-- The nearest whole number, the larger of two.
abbrev nearest : ℕ → ℕ → ℕ
nearest count total = (200 * count + total) / (2 * total)

nearest_above : (count total : ℕ) → 2 * (total * nearest count total) ≤ 200 * count + total
nearest_above count total =
    omega
      (arith, mul-div-le (200 * count + total) (2 * total), mul_assoc 2 total (nearest count total))

nearest_below :
    (count total : ℕ) → 0 < total → 200 * count ≤ 2 * (total * nearest count total) + total
nearest_below count total more =
    let q = nearest count total in
    omega (
      arith,
      lt-mul-div-succ (200 * count + total) {b = 2 * total} (omega arith),
      mul-add (2 * total) q 1,
      mul_assoc 2 total q,
    )

nearest-IsRounding : IsRounding nearest
nearest-IsRounding = record {
  above = λ count total h more few. nearest_above count total;
  below = λ count total h more few. nearest_below count total more;
}

abbrev rows : List StatsBarRow
rows =
    record { key = "0"; label = "on"; count = 7200 }
    ∷ record { key = "1"; label = "off"; count = 3100 }
    ∷ []

stats_bars-sum_example :
    let shown = map (bar_of nearest (total_of (counts rows))) rows in
    ((stats_bars nearest rows (total_of (counts rows)) ≡ bars shown)
      × All (λ b. b.percent ≤ 100) shown)
    × ((2 * total_of (percents shown) ≤ 200 + length rows)
        × (200 ≤ 2 * total_of (percents shown) + length rows))
unfolding total_of
stats_bars-sum_example = stats_bars-sum nearest nearest-IsRounding rows (omega arith) (omega arith)

seventy_test : map (λ b. b.percent) (map (bar_of nearest 10300) rows) ≡ 70 ∷ 30 ∷ []
seventy_test = refl
