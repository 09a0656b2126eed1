-- ===== src/Analytics/Tests.antt =====
-- The theorems on ranges and statistics at small inputs. The days are those at the start of the
-- count, but for the tests of the calendar.
use lakira_backend.Base.{
  ℕ, ◌+◌, ◌-◌, ◌*◌, ◌≤◌, ◌<◌, ◌≡◌, refl, inl, Option, none, some, [], ◌∷◌, arith, ltb,
  if◌then◌else◌,
}
use lakira_backend.Text.{Text}
use lakira_backend.Analytics.Buckets.{one_day, resolve_bucket, spec_of}
use lakira_backend.Analytics.Calendar.{
  day_ms, hour_ms, first_day_of_month, last_month_from, month_of_day, days_since_monday,
}
use lakira_backend.Analytics.Zone.{OneChange, instant_of}
use lakira_backend.Analytics.ZoneLaws.{ReachesFirst, instant_of_reaches}
use lakira_backend.Analytics.Windows.{
  subtract_months_wall, RelativeUnit, start_of_next_bucket, start_of_next_bucket_wall,
  resolve_relative_range, parse_relative_window,
}
use lakira_backend.Analytics.Parsing.{print_window, parse_relative_window-print_window}
use lakira_backend.Analytics.RangeLaws.{
  resolve_relative_range_covers, resolve_relative_range_misses,
}
use lakira_backend.Analytics.Fallback.{
  requested_duration_ms, estimate_buckets, compute_fallback_range, FallbackComputation,
  default_horizon_ms,
}
use lakira_backend.Analytics.FallbackLaws.{compute_fallback_range_bounds}
use lakira_backend.Analytics.Stats.{BucketAggregate, missing, number, summarize_buckets}
use lakira_backend.Analytics.StatsLaws.{summarize_buckets_of_logs, summarize_buckets-Perm}
use mathlib.Core.List.Perm

-- The epoch is a Thursday and the first of its month.
epoch_month : month_of_day 100_211_585 ≡ 12 * 274_370
unfolding month_of_day last_month_from first_day_of_month
epoch_month = refl

epoch_weekday : days_since_monday 100_211_585 ≡ 3
epoch_weekday = refl

-- A zone that is `before` a day early or late until `c`, and `after` from then on.
abbrev one_move : (c before after : ℕ) → ℕ → ℕ
one_move c before after i = if ltb i c then i + before - day_ms else i + after - day_ms

one_move_near :
    (c before after low high : ℕ)
    → day_ms ≤ low
    → 0 < before
    → before < 2 * day_ms
    → 0 < after
    → after < 2 * day_ms
    → OneChange (one_move c before after) low high
one_move_near c before after low high deep b d a e = record {
  change = c;
  offset_before = before;
  offset_after = after;
  early_small = d;
  late_small = e;
  early_positive = b;
  late_positive = a;
  is_early = λ i l h g. ground arith;
  is_late = λ i l h g. ground arith;
}

-- On day 100 the clocks go from 02:00 to 03:00, and on another from 00:01 back to 23:01.
abbrev forward : ℕ → ℕ
forward = one_move (100 * day_ms + 2 * hour_ms) day_ms (day_ms + hour_ms)

abbrev backward : ℕ → ℕ
backward = one_move (100 * day_ms + 60_000) day_ms (day_ms - hour_ms)

forward_near : (w : ℕ) → 2 * day_ms ≤ w → OneChange forward (w - day_ms) (w + day_ms)
forward_near w deep =
    one_move_near _ _ _ _ _ (omega arith) (omega arith) (omega arith) (omega arith) (omega arith)

backward_near : (w : ℕ) → 2 * day_ms ≤ w → OneChange backward (w - day_ms) (w + day_ms)
backward_near w deep =
    one_move_near _ _ _ _ _ (omega arith) (omega arith) (omega arith) (omega arith) (omega arith)

-- 02:30 is skipped.
instant_of_reaches_example :
    ReachesFirst forward (100 * day_ms + 9_000_000) (instant_of forward (100 * day_ms + 9_000_000))
instant_of_reaches_example =
    instant_of_reaches forward (100 * day_ms + 9_000_000) (omega arith)
      (forward_near (100 * day_ms + 9_000_000) (omega arith))

-- `7d`
abbrev week_text : Text
week_text = b'7' ∷ b'd' ∷ []

resolve_relative_range_covers_example :
    (let r = resolve_relative_range forward week_text one_day (100 * day_ms + 9_000_000) in
      (r.start ≤ r.stop) × (100 * day_ms + 9_000_000 < r.stop))
unfolding start_of_next_bucket_wall forward_near one_move_near
resolve_relative_range_covers_example =
    resolve_relative_range_covers forward forward_near week_text one_day (100 * day_ms + 9_000_000)
      (101 * day_ms) (omega arith) refl (omega arith) (inl (omega arith))

-- 23:31, for the second time
resolve_relative_range_misses_example :
    (resolve_relative_range backward week_text one_day (100 * day_ms + 1_860_000)).stop
    < 100 * day_ms + 1_860_000
unfolding start_of_next_bucket_wall backward_near one_move_near
resolve_relative_range_misses_example =
    resolve_relative_range_misses backward week_text one_day (100 * day_ms + 1_860_000)
      (100 * day_ms) (backward_near (100 * day_ms) (omega arith)) refl (omega arith) (omega arith)
      (omega arith)

-- The last of March, a year that is no leap year (31 March -272399), at one o'clock.
abbrev end_of_march : ℕ
end_of_march = (first_day_of_month 15 - 1) * day_ms + hour_ms

abbrev end_of_february : ℕ
end_of_february = (first_day_of_month 14 - 1) * day_ms + hour_ms

a_month_back : subtract_months_wall end_of_march 1 ≡ some end_of_february
unfolding subtract_months_wall month_of_day last_month_from first_day_of_month
a_month_back = refl

parse_relative_window-print_window_example :
    parse_relative_window (print_window (record { amount = 30; unit = RelativeUnit.d }))
    ≡ some (record { amount = 30; unit = RelativeUnit.d })
parse_relative_window-print_window_example =
    parse_relative_window-print_window (record { amount = 30; unit = RelativeUnit.d }) (omega arith)
      (omega arith)

no_leading_zero : parse_relative_window (b'0' ∷ b'7' ∷ b'd' ∷ []) ≡ none
unfolding parse_relative_window
no_leading_zero = refl

-- Five days are asked for, and the guard allows three.
abbrev small_fallback : FallbackComputation
small_fallback = record {
  range = record { start = 98 * day_ms; stop = 101 * day_ms };
  bucket = one_day;
  estimated_buckets = 4;
}

compute_fallback_range_bounds_example :
    (101 * day_ms ≡ start_of_next_bucket (λ i. i) (100 * day_ms + 5) one_day)
    × (101 * day_ms ≤ 98 * day_ms + default_horizon_ms)
    × (4 ≤ 3 + 1)
unfolding compute_fallback_range requested_duration_ms estimate_buckets resolve_bucket spec_of
    start_of_next_bucket start_of_next_bucket_wall instant_of
compute_fallback_range_bounds_example =
    compute_fallback_range_bounds (λ i. i)
      (record { start = some 0; stop = some (5 * day_ms); bucket = one_day }) (100 * day_ms + 5) 3
      none small_fallback refl

-- Two buckets, of the logs 2 and 4, and 9, with an empty one between them.
abbrev first_row : BucketAggregate
first_row = record {
  average = number (some 3);
  min = number (some 2);
  max = number (some 4);
  count = number (some 2);
}

abbrev empty_row : BucketAggregate
empty_row = record { average = missing; min = missing; max = missing; count = missing }

abbrev last_row : BucketAggregate
last_row = record {
  average = number (some 9);
  min = number (some 9);
  max = number (some 9);
  count = number (some 1);
}

abbrev no_number : Text → Option ℕ
no_number _ = none

summarize_buckets_of_logs_example :
    summarize_buckets no_number (first_row ∷ empty_row ∷ last_row ∷ []) ≡ record {
      average = some (record { numerator = 15; denominator = 3 });
      min = some 2;
      max = some 9;
      count = 3;
    }
summarize_buckets_of_logs_example =
    summarize_buckets_of_logs no_number (first_row ∷ empty_row ∷ last_row ∷ [])
      ((2 ∷ 4 ∷ []) ∷ [] ∷ (9 ∷ []) ∷ [])
      ((refl, (3, refl, refl), refl, refl), (refl, ((refl, (9, refl, refl), refl, refl), tt)))

summarize_buckets-Perm_example :
    summarize_buckets no_number (first_row ∷ last_row ∷ [])
    ≡ summarize_buckets no_number (last_row ∷ first_row ∷ [])
summarize_buckets-Perm_example =
    summarize_buckets-Perm no_number (first_row ∷ last_row ∷ []) (last_row ∷ first_row ∷ [])
      (Perm.swap last_row first_row [])
