-- ===== src/Dashboard/Shares/Laws.antt =====
-- How far the percentages of the bars are from a hundred.
use native.Mathlib.Nat.{mul-add, add-mul, mul_comm}
use flag_it.Common.{
  ℕ, ◌+◌, ◌*◌, ◌≤◌, ◌<◌, ◌==◌, ◌||◌, true, false, List, [], ◌∷◌, ◌≡◌, ap, map, ltb, length,
  if◌then◌else◌, All, arith,
}
use flag_it.Dashboard.Shares.{StatsBarRow, Bar, nothing, bars, bar_of, stats_bars, total_of}

-- Below this number the floating point result is a nearest whole number, ties aside.
abbrev pub limit : ℕ
limit = 1000000000000

-- `Math.round((count / total) * 100)` is a whole number nearest to the percentage. Of two that are as
-- near it may be either, since the quotient is rounded.
pub record IsRounding (share : ℕ → ℕ → ℕ) : Type 0 where
  pub above :
      (count total : ℕ)
      → count ≤ total
      → 0 < total
      → total < limit
      → 2 * (total * share count total) ≤ 200 * count + total
  pub below :
      (count total : ℕ)
      → count ≤ total
      → 0 < total
      → total < limit
      → 200 * count ≤ 2 * (total * share count total) + total

abbrev pub counts : List StatsBarRow → List ℕ
counts rows = map (λ r. r.count) rows

abbrev pub percents : List Bar → List ℕ
percents bs = map (λ b. b.percent) bs

cancel : (t a b : ℕ) → 0 < t → t * a ≤ t * b → a ≤ b
cancel t a b h le = grind arith

parts_le :
    (rows : List StatsBarRow) (t : ℕ) → total_of (counts rows) ≤ t → All (λ r. r.count ≤ t) rows
unfolding total_of
parts_le [] t h = tt
parts_le (r ∷ rows) t h = (omega (arith, h), parts_le rows t (omega (arith, h)))

ltb_more : (t : ℕ) → 0 < t → ltb 0 t ≡ true
ltb_more t h = ground arith

mul_left_comm : (a b c : ℕ) → a * (b * c) ≡ b * (a * c)
mul_left_comm a b c = grind arith

cancel_le : (t p c : ℕ) → 0 < t → 2 * (t * p) ≤ 200 * c + t → c ≤ t → p ≤ 100
cancel_le t p c h a le =
    let twice =
      cancel t (2 * p) 201 h (let same = mul_left_comm t 2 p in omega (arith, same, a, le)) in
    omega (arith, twice)

module _ (share : ℕ → ℕ → ℕ) (rounds : IsRounding share) (t : ℕ) (more : 0 < t)
    (few : t < limit) where
  -- The bounds of one row.
  one_row :
      (r : StatsBarRow)
      → r.count ≤ t
      → (2 * (t * (bar_of share t r).percent) ≤ 200 * r.count + t)
        × (200 * r.count ≤ 2 * (t * (bar_of share t r).percent) + t)
  one_row r h =
      rw (ltb_more t more) (rounds.above r.count t h more few, rounds.below r.count t h more few)

  rows_sum :
      (rows : List StatsBarRow)
      → All (λ r. r.count ≤ t) rows
      → (2 * (t * total_of (percents (map (bar_of share t) rows)))
          ≤ 200 * total_of (counts rows) + length rows * t)
        × (200 * total_of (counts rows)
            ≤ 2 * (t * total_of (percents (map (bar_of share t) rows))) + length rows * t)
  unfolding total_of
  rows_sum [] h = (omega arith, omega arith)
  rows_sum (r ∷ rows) h =
      let (above, below) = one_row r h.0 in
      let (above', below') = rows_sum rows h.1 in
      let p = (bar_of share t r).percent in
      let rest = total_of (percents (map (bar_of share t) rows)) in
      let split = mul-add t p rest in
      let len = add-mul 1 (length rows) t in
      (omega (arith, split, above, above'), omega (arith, split))

  percent_le : (r : StatsBarRow) → r.count ≤ t → (bar_of share t r).percent ≤ 100
  percent_le r h =
      let (above, below) = one_row r h in
      cancel_le t (bar_of share t r).percent r.count more above h

  percents_le :
      (rows : List StatsBarRow)
      → All (λ r. r.count ≤ t) rows
      → All (λ b. b.percent ≤ 100) (map (bar_of share t) rows)
  percents_le [] h = tt
  percents_le (r ∷ rows) h = (percent_le r h.0, percents_le rows h.1)

some_rows :
    (rows : List StatsBarRow)
    → 0 < total_of (counts rows)
    → (total_of (counts rows) == 0 || length rows == 0) ≡ false
unfolding total_of
some_rows [] h = absurd (omega arith)
some_rows (r ∷ rows) h = ground arith

-- Where the total is the sum of the counts, is not zero and is less than 10 ^ 12, there is a bar for
-- each row, no bar is wider than a hundred percent, and the percentages sum to a hundred but for
-- half a percent for each row at most.
pub stats_bars-sum :
    (share : ℕ → ℕ → ℕ)
    → IsRounding share
    → (rows : List StatsBarRow) → 0 < total_of (counts rows)
    → total_of (counts rows) < limit
    → let shown = map (bar_of share (total_of (counts rows))) rows in
      ((stats_bars share rows (total_of (counts rows)) ≡ bars shown)
        × All (λ b. b.percent ≤ 100) shown)
      × ((2 * total_of (percents shown) ≤ 200 + length rows)
          × (200 ≤ 2 * total_of (percents shown) + length rows))
unfolding stats_bars
stats_bars-sum share rounds rows more few =
    let t = total_of (counts rows) in
    let parts = parts_le rows t (omega arith) in
    let (above, below) = rows_sum share rounds t more few rows parts in
    let sum = total_of (percents (map (bar_of share t) rows)) in
    (
      (
        ap (λ c. if c then nothing else bars (map (bar_of share t) rows)) (some_rows rows more),
        percents_le share rounds t more few rows parts,
      ),
      (
        cancel t (2 * sum) (200 + length rows) more (
            let e = mul_left_comm t 2 sum in
            let d = mul-add t 200 (length rows) in
            let m = mul_comm t (length rows) in omega (arith, e, d, m, above)),
        cancel t 200 (2 * sum + length rows) more (
            let e = mul_left_comm t 2 sum in
            let d = mul-add t (2 * sum) (length rows) in
            let m = mul_comm t (length rows) in omega (arith, e, d, m, below)),
      ),
    )
