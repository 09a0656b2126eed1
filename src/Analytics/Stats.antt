-- ===== src/Analytics/Stats.antt =====
-- src/features/public/analytics/domain/series-stats.ts. A figure is a whole number of a unit so
-- small that each is one, `Number(text)` is a parameter, and the mean is kept as its two terms.
use lakira_backend.Base.{
  ℕ, zero, suc, ◌+◌, ◌*◌, min, max, Option, none, some, List, [], ◌∷◌, ltb, if◌then◌else◌,
}
use lakira_backend.Text.{Text}

-- A number that is not finite is `none`.
pub data Numeric : Type 0 where
  missing : Numeric
  number : Option ℕ → Numeric
  text : Text → Numeric

pub record BucketAggregate : Type 0 where
  pub average : Numeric
  pub min : Numeric
  pub max : Numeric
  pub count : Numeric

-- The variables of the loop.
pub record Totals : Type 0 where
  pub count : ℕ
  pub weighted_sum : ℕ
  pub min : Option ℕ
  pub max : Option ℕ

pub record Ratio : Type 0 where
  pub numerator : ℕ
  pub denominator : ℕ

pub record VizStats : Type 0 where
  pub average : Option Ratio
  pub min : Option ℕ
  pub max : Option ℕ
  pub count : ℕ

-- `if (n != null) m = m == null ? n : choose(m, n)`
abbrev pub merge : (ℕ → ℕ → ℕ) → Option ℕ → Option ℕ → Option ℕ
merge choose m none = m
merge choose none (some n) = some n
merge choose (some m) (some n) = some (choose m n)

abbrev pub no_totals : Totals
no_totals = record { count = 0; weighted_sum = 0; min = none; max = none }

unfoldable pub stats_of_totals : Totals → VizStats
stats_of_totals t = record {
  average =
      if ltb 0 t.count
      then some (record { numerator = t.weighted_sum; denominator = t.count })
      else none;
  min = t.min;
  max = t.max;
  count = t.count;
}

module _ (to_number : Text → Option ℕ) where
  abbrev pub finite : Numeric → Option ℕ
  finite missing = none
  finite (number n) = n
  finite (text s) = to_number s

  -- The loop's body for a row with these count and average.
  abbrev pub add_counted : Totals → BucketAggregate → Option ℕ → Option ℕ → Totals
  add_counted t row none avg = t
  add_counted t row (some zero) avg = t
  add_counted t row (some (suc n)) none = t
  add_counted t row (some (suc n)) (some avg) = record {
    count = t.count + suc n;
    weighted_sum = t.weighted_sum + avg * suc n;
    min = merge min t.min (finite row.min);
    max = merge max t.max (finite row.max);
  }

  abbrev pub add_row : Totals → BucketAggregate → Totals
  add_row t row = add_counted t row (finite row.count) (finite row.average)

  unfoldable pub add_rows : Totals → List BucketAggregate → Totals
  add_rows t [] = t
  add_rows t (row ∷ rows) = add_rows (add_row t row) rows

  -- `summarizeBuckets`
  unfoldable pub summarize_buckets : List BucketAggregate → VizStats
  summarize_buckets rows = stats_of_totals (add_rows no_totals rows)
