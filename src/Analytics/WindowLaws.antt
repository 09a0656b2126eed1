-- ===== src/Analytics/WindowLaws.antt =====
-- Buckets of wall times, and the ranges of relative windows.
use lakira_backend.Base.{
  ℕ, suc, ◌+◌, ◌-◌, ◌*◌, ◌/◌, ◌%◌, ◌≤◌, ◌<◌, ◌≡◌, ap, min, inl, inr, some, arith, Bool-cases, leb,
}
use lakira_backend.Analytics.Buckets.{BucketAlias, one_hour, one_day, one_week, one_month, one_year}
use lakira_backend.Analytics.Calendar.{day_ms, date_of_day, first_day_of_month, month_of_day}
use lakira_backend.Analytics.CalendarLaws.{
  first_day_of_month_step, first_day_of_month_rises, month_of_day-Holds, month_of_day_eq,
  month_of_day_rises,
}
use lakira_backend.Analytics.Windows.{
  start_of_next_bucket_wall, subtract_months_wall, subtract_window_wall, RelativeUnit,
}

whole_days : (a : ℕ) → (a / day_ms * day_ms ≤ a) × (a < a / day_ms * day_ms + day_ms)
whole_days a = omega arith

-- Below the start of a month there are only days before it.
below_month : (a n : ℕ) → a < n * day_ms → a / day_ms < n
below_month a n h = omega arith

-- The next bucket starts after the wall time, at most 366 days later.
pub start_of_next_bucket_wall_after :
    (a : ℕ) (bucket : BucketAlias) → a < start_of_next_bucket_wall a bucket
unfolding start_of_next_bucket_wall
start_of_next_bucket_wall_after a one_hour = omega arith
start_of_next_bucket_wall_after a one_day = omega arith
start_of_next_bucket_wall_after a one_week = omega arith
start_of_next_bucket_wall_after a one_month = omega (
  arith,
  month_of_day-Holds (a / day_ms),
  ap first_day_of_month {x = month_of_day (a / day_ms) + 1} {y = suc (month_of_day (a / day_ms))}
      (omega arith),
)
start_of_next_bucket_wall_after a one_year =
    let n = month_of_day (a / day_ms) in
    omega (
      arith,
      month_of_day-Holds (a / day_ms),
      first_day_of_month_rises (suc n) (12 * (n / 12 + 1)) (omega arith),
    )

-- All the wall times from one on to the start of the next bucket have the same next bucket.
pub start_of_next_bucket_wall_same :
    (a b : ℕ) (bucket : BucketAlias)
    → a ≤ b
    → b < start_of_next_bucket_wall a bucket
    → start_of_next_bucket_wall b bucket ≡ start_of_next_bucket_wall a bucket
unfolding start_of_next_bucket_wall
start_of_next_bucket_wall_same a b one_hour l h = omega arith
start_of_next_bucket_wall_same a b one_day l h = omega arith
start_of_next_bucket_wall_same a b one_week l h = omega arith
start_of_next_bucket_wall_same a b one_month l h =
    let n = month_of_day (a / day_ms) in
    let e : n + 1 ≡ suc n = omega arith in
    let same : month_of_day (b / day_ms) ≡ n =
      month_of_day_eq (b / day_ms) n (omega (arith, month_of_day-Holds (a / day_ms)))
        (omega (arith, ap first_day_of_month e)) in
    ap (λ k. first_day_of_month (k + 1) * day_ms) same
start_of_next_bucket_wall_same a b one_year l h =
    let n = month_of_day (a / day_ms) in
    let k = month_of_day (b / day_ms) in
    let later : n ≤ k = month_of_day_rises (a / day_ms) (b / day_ms) (omega arith) in
    let below : k < 12 * (n / 12 + 1) =
      grind
        (arith, first_day_of_month_rises (12 * (n / 12 + 1)) k, month_of_day-Holds (b / day_ms)) in
    let same : k / 12 ≡ n / 12 = omega arith in
    ap (λ i. first_day_of_month (12 * (i + 1)) * day_ms) same

-- Months back land in the month that is so many before, at the same time of day, and on the same
-- day of the month or, where that month is shorter, on its last.
subtract_months_wall_lem :
    (a k b : ℕ)
    → subtract_months_wall a k ≡ some b
    → (month_of_day (b / day_ms) + k ≡ month_of_day (a / day_ms))
      × (b % day_ms ≡ a % day_ms)
      × (date_of_day (b / day_ms)
          ≡ min (date_of_day (a / day_ms)) (
              first_day_of_month (month_of_day (b / day_ms) + 1)
              - first_day_of_month (month_of_day (b / day_ms))))
unfolding subtract_months_wall
subtract_months_wall_lem a k b h =
    let n = month_of_day (a / day_ms) in
    let t = n - k in
    let e : t + 1 ≡ suc t = omega arith in
    let long = first_day_of_month (t + 1) - first_day_of_month t in
    let date = min (date_of_day (a / day_ms)) long in
    let back : k ≤ n = ground arith in
    let at_b : b ≡ (first_day_of_month t + (date - 1)) * day_ms + a % day_ms = ground arith in
    let day : b / day_ms ≡ first_day_of_month t + (date - 1) = omega arith in
    let step = first_day_of_month_step t in
    let here : month_of_day (b / day_ms) ≡ t =
      month_of_day_eq (b / day_ms) t (omega arith) (omega (arith, ap first_day_of_month e)) in
    (omega arith, omega arith, rw here (omega (arith, ap first_day_of_month e)))

subtract_months_before : (a k b : ℕ) → subtract_months_wall a k ≡ some b → b ≤ a
subtract_months_before a k b h =
    let (month, time, date) = subtract_months_wall_lem a k b h in
    let m = month_of_day (a / day_ms) in
    let n = month_of_day (b / day_ms) in
    let in_a = month_of_day-Holds (a / day_ms) in
    let in_b = month_of_day-Holds (b / day_ms) in
    elim (Bool-cases (leb k 0)) [
      | inl none_back ↦ let same : n ≡ m = ground arith in omega (arith, ap first_day_of_month same)
      | inr some_back ↦ let below = first_day_of_month_rises (suc n) m (ground arith) in omega arith
    ]

-- A window never starts after the end that it is counted back from.
pub subtract_window_wall_before :
    (a n : ℕ) (u : RelativeUnit) (b : ℕ) → subtract_window_wall a n u ≡ some b → b ≤ a
unfolding subtract_window_wall
subtract_window_wall_before a n RelativeUnit.h b h = ground arith
subtract_window_wall_before a n RelativeUnit.d b h = ground arith
subtract_window_wall_before a n RelativeUnit.w b h = ground arith
subtract_window_wall_before a n RelativeUnit.m b h = subtract_months_before a n b h
subtract_window_wall_before a n RelativeUnit.y b h = subtract_months_before a (n * 12) b h
