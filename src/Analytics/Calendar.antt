-- ===== src/Analytics/Calendar.antt =====
-- The UTC accessors of JavaScript's Date, which relative-range.ts computes with. A wall time is a
-- number of milliseconds since the first of January of the year -272400, which is before every
-- time that a Date holds. The shift is a whole number of the calendar's cycles of 400 years, so
-- that the years of this count are leap years as the calendar's are. Months are counted through:
-- month 12 * y + m is month m of year y.
use lakira_backend.Base.{
  ℕ, zero, suc, ◌+◌, ◌-◌, ◌*◌, ◌/◌, ◌%◌, Bool, ◌&&◌, ◌||◌, not, ◌==◌, leb, ltb, if◌then◌else◌,
}

abbrev pub hour_ms : ℕ
hour_ms = 3_600_000

abbrev pub day_ms : ℕ
day_ms = 86_400_000

abbrev pub is_leap : ℕ → Bool
is_leap y = y % 4 == 0 && (not (y % 100 == 0) || y % 400 == 0)

abbrev pub leap_years_before : ℕ → ℕ
leap_years_before y = (y + 3) / 4 + (y + 399) / 400 - (y + 99) / 100

abbrev pub first_day_of_year : ℕ → ℕ
first_day_of_year y = 365 * y + leap_years_before y

-- The days of a year before its month `m`, which is counted from 0.
abbrev pub days_before_month : Bool → ℕ → ℕ
days_before_month leap m = (367 * m + 5) / 12 - (if ltb m 2 then 0 else if leap then 1 else 2)

-- `Date.UTC(year, month, 1)`, in days
unfoldable pub first_day_of_month : ℕ → ℕ
first_day_of_month months =
    first_day_of_year (months / 12) + days_before_month (is_leap (months / 12)) (months % 12)

-- The last month from `months` on that starts on or before `day`.
unfoldable pub last_month_from : ℕ → ℕ → ℕ → ℕ
last_month_from zero day months = months
last_month_from (suc fuel) day months =
    let later = last_month_from fuel day (suc months) in
    if leb (first_day_of_month (suc months)) day then later else months

-- `getUTCFullYear` and `getUTCMonth` in one count: the month that the day is in. The search starts
-- a month before the day divided by the mean length of a month.
unfoldable pub month_of_day : ℕ → ℕ
month_of_day day = last_month_from 3 day (4800 * day / 146097 - 1)

abbrev pub year_of_day : ℕ → ℕ
year_of_day day = month_of_day day / 12

-- `getUTCDate`
abbrev pub date_of_day : ℕ → ℕ
date_of_day day = day - first_day_of_month (month_of_day day) + 1

-- `(getUTCDay() + 6) % 7`; the count starts on a Saturday.
abbrev pub days_since_monday : ℕ → ℕ
days_since_monday day = (day + 5) % 7
