-- ===== src/Analytics/Windows.antt =====
-- The rest of relative-range.ts: a window such as `7d`, the bucket that an instant is in, and the
-- range that a window covers. A range's ends are instants, which `toISOString` prints.
use lakira_backend.Base.{
  ℕ, ◌+◌, ◌-◌, ◌*◌, ◌/◌, ◌%◌, min, Bool, ◌&&◌, Option, none, some, [], ◌∷◌, ◌==◌, leb,
  if◌then◌else◌,
}
use lakira_backend.Text.{Text}
use lakira_backend.Analytics.Buckets.{BucketAlias, one_hour, one_day, one_week, one_month, one_year}
use lakira_backend.Analytics.Calendar.{
  hour_ms, day_ms, first_day_of_month, month_of_day, year_of_day, date_of_day, days_since_monday,
}
use lakira_backend.Analytics.Zone.{instant_of}

pub data RelativeUnit : Type 0 where
  h d w m y : RelativeUnit

pub record RelativeWindow : Type 0 where
  pub amount : ℕ
  pub unit : RelativeUnit

abbrev pub unit_of : ℕ → Option RelativeUnit
unit_of c =
    if c == b'h'
    then some RelativeUnit.h
    else if c == b'd'
    then some RelativeUnit.d
    else if c == b'w'
    then some RelativeUnit.w
    else if c == b'm'
    then some RelativeUnit.m
    else if c == b'y'
    then some RelativeUnit.y
    else none

abbrev pub max_safe_integer : ℕ
max_safe_integer = 9_007_199_254_740_991

-- What follows the digits that are read already, of value `v`: more digits, and a unit at the end.
unfoldable pub parse_rest : ℕ → Text → Option RelativeWindow
parse_rest v [] = none
parse_rest v (c ∷ []) = elim (unit_of c) [
  | none ↦ none
  | some u ↦ if leb v max_safe_integer then some (record { amount = v; unit = u }) else none
]
parse_rest v (c ∷ e ∷ s) =
    let rest = parse_rest (v * 10 + (c - b'0')) (e ∷ s) in
    if leb b'0' c && leb c b'9' then rest else none

-- `parseRelativeWindow`: the first digit is not 0.
unfoldable pub parse_relative_window : Text → Option RelativeWindow
parse_relative_window [] = none
parse_relative_window (c ∷ s) = if leb b'1' c && leb c b'9' then parse_rest (c - b'0') s else none

-- `startOfNextBucketWall`
unfoldable pub start_of_next_bucket_wall : ℕ → BucketAlias → ℕ
start_of_next_bucket_wall wall_ms one_hour = wall_ms / hour_ms * hour_ms + hour_ms
start_of_next_bucket_wall wall_ms one_day = wall_ms / day_ms * day_ms + day_ms
start_of_next_bucket_wall wall_ms one_week =
    let day = wall_ms / day_ms in day * day_ms + (7 - days_since_monday day) * day_ms
start_of_next_bucket_wall wall_ms one_month =
    first_day_of_month (month_of_day (wall_ms / day_ms) + 1) * day_ms
start_of_next_bucket_wall wall_ms one_year =
    first_day_of_month (12 * (year_of_day (wall_ms / day_ms) + 1)) * day_ms

-- `subtractMonthsWall`; `none` is a time before the first that is counted, which no Date holds.
unfoldable pub subtract_months_wall : ℕ → ℕ → Option ℕ
subtract_months_wall wall_ms months =
    let day = wall_ms / day_ms in
    let month = month_of_day day in
    let target = month - months in
    let days_in_target = first_day_of_month (target + 1) - first_day_of_month target in
    if leb months month
    then some (
        (first_day_of_month target + (min (date_of_day day) days_in_target - 1)) * day_ms
        + wall_ms % day_ms)
    else none

abbrev pub subtract_ms : ℕ → ℕ → Option ℕ
subtract_ms wall_ms span = if leb span wall_ms then some (wall_ms - span) else none

-- `subtractWindowWall`
unfoldable pub subtract_window_wall : ℕ → ℕ → RelativeUnit → Option ℕ
subtract_window_wall wall_ms amount RelativeUnit.h = subtract_ms wall_ms (amount * hour_ms)
subtract_window_wall wall_ms amount RelativeUnit.d = subtract_ms wall_ms (amount * day_ms)
subtract_window_wall wall_ms amount RelativeUnit.w = subtract_ms wall_ms (amount * 7 * day_ms)
subtract_window_wall wall_ms amount RelativeUnit.m = subtract_months_wall wall_ms amount
subtract_window_wall wall_ms amount RelativeUnit.y = subtract_months_wall wall_ms (amount * 12)

-- The first of January 1970, on this count, and the largest distance from it.
abbrev pub epoch_ms : ℕ
epoch_ms = 100_211_585 * day_ms

abbrev pub max_wall_ms : ℕ
max_wall_ms = 8_640_000_000_000_000 - 2 * day_ms

-- `Math.abs(wallMs) <= MAX_WALL_MS`
abbrev pub is_within : ℕ → Bool
is_within wall_ms = leb (epoch_ms - max_wall_ms) wall_ms && leb wall_ms (epoch_ms + max_wall_ms)

pub record Range : Type 0 where
  pub start : ℕ
  pub stop : ℕ

module _ (wall_time_of : ℕ → ℕ) where
  -- `startOfNextBucket`
  unfoldable pub start_of_next_bucket : ℕ → BucketAlias → ℕ
  start_of_next_bucket instant bucket =
      instant_of wall_time_of (start_of_next_bucket_wall (wall_time_of instant) bucket)

  -- The range up to `end_wall`, once the window is read.
  abbrev pub window_range : ℕ → Option RelativeWindow → Range
  window_range end_wall none =
      let stop = instant_of wall_time_of end_wall in record { start = stop; stop = stop }
  window_range end_wall (some window) =
      let stop = instant_of wall_time_of end_wall in
      elim (subtract_window_wall end_wall window.amount window.unit) [
        | none ↦ record { start = stop; stop = stop }
        | some start_wall ↦
            if is_within start_wall
            then record { start = instant_of wall_time_of start_wall; stop = stop }
            else record { start = stop; stop = stop }
      ]

  -- `resolveRelativeRange`
  unfoldable pub resolve_relative_range : Text → BucketAlias → ℕ → Range
  resolve_relative_range last bucket now =
      window_range (start_of_next_bucket_wall (wall_time_of now) bucket)
        (parse_relative_window last)
